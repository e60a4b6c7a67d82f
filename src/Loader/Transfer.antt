-- ===== src/Loader/Transfer.antt =====
-- An executable is one in every state with the same file, where its pages are as free as before.
use learning_osdev.Base.{ℕ, ◌+◌, ◌*◌, ◌≤◌, ◌<◌, ◌≡◌, ◌∙◌, sym, ap, arith, u64, true}
use learning_osdev.Mem.Words.{load64-cong}
use learning_osdev.Elf.{ProgramHeader}
use learning_osdev.Elf.Words.{load16-cong, program_header-cong}
use learning_osdev.Paging.{Paging}
use learning_osdev.Paging.Walk.{translate, is_small}
use learning_osdev.Loader.Segment.{pages}
use learning_osdev.Loader.Layout.{IsExecutable}

pub IsExecutable-cong :
    (s t : Paging) {elf_file file_end code_buffer top count : ℕ} {header : ℕ → ProgramHeader}
    {place : ℕ → ℕ}
    → IsExecutable s elf_file file_end code_buffer top count header place
    → ((a : ℕ) → elf_file ≤ a → a < file_end → t.mem a ≡ s.mem a)
    → t.it ≡ s.it
    → ((k i : ℕ)
        → k < count
        → (header k).type ≡ 1
        → i < pages (header k).memsz
        → is_small (translate s (u64 ((header k).vaddr + 0x1000 * i))) ≡ true
        → is_small (translate t (u64 ((header k).vaddr + 0x1000 * i))) ≡ true)
    → IsExecutable t elf_file file_end code_buffer top count header place
IsExecutable-cong s t {elf_file} {header} {place} x same it small = record {
  first =
      x.first
      ∙ ap (λ (n : ℕ). u64 (elf_file + n))
          (load64-cong s.mem t.mem (elf_file + 32)
            (λ a lo hi. sym (same a (omega arith) (omega (arith, x.file_header)))));
  next = λ k lt.
      x.next k lt
      ∙ ap (λ (n : ℕ). u64 (place k + n))
          (load16-cong s.mem t.mem (elf_file + 54)
            (λ a lo hi. sym (same a (omega arith) (omega (arith, x.file_header)))));
  counted =
      load16-cong t.mem s.mem (elf_file + 56)
        (λ a lo hi. same a (omega arith) (omega (arith, x.file_header)))
      ∙ x.counted;
  some_header = x.some_header;
  header_low = x.header_low;
  header_high = x.header_high;
  file_header = x.file_header;
  file_fits = x.file_fits;
  headers = λ k lt.
      program_header-cong t.mem s.mem (place k)
        (λ a lo hi. same a (omega (arith, x.header_low k lt)) (omega (arith, x.header_high k lt)))
      ∙ x.headers k lt;
  loadable = λ k lt one.
      let l = x.loadable k lt one in
      record {
        source_low = l.source_low;
        source_high = l.source_high;
        above = l.above;
        fits = l.fits;
        clear_of_file = l.clear_of_file;
        small = λ j lo hi. small k j lt one (omega arith) (l.small j lo hi);
      };
  apart = x.apart;
  tables_fit = rw it x.tables_fit;
  top_low = x.top_low;
  top_below = x.top_below;
}
