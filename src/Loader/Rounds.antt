-- ===== src/Loader/Rounds.antt =====
-- The rounds of the loop of map_kernel of bootloader/cboot/src/main.c on an executable: what holds
-- before each header.
use learning_osdev.Base.{
  List, ◌++◌, ℕ, suc, ◌+◌, ◌*◌, ◌%◌, ◌^◌, ◌≤◌, ◌<◌, ◌≡◌, ◌≢◌, inl, inr, refl, sym, ◌∙◌, arith, true,
  Bool-cases, Option, ◌==◌,
}
use learning_osdev.Mem.Words.{IsBytes}
use learning_osdev.Print.Text.{shown}
use learning_osdev.Print.Printer.{shown-append}
use learning_osdev.Paging.Printing.{with_console, IsTables-console, translate-console}
use learning_osdev.Paging.{Paging}
use learning_osdev.Paging.Walk.{translate, is_small, page}
use learning_osdev.Paging.Invariant.{Owner, IsTables}
use learning_osdev.Elf.{ProgramHeader, program_header}
use learning_osdev.Loader.{frame_of, load_segment}
use learning_osdev.Elf.Words.{program_header-cong}
use learning_osdev.Loader.Pages.{page_of}
use learning_osdev.Loader.Segment.{pages, IsSegment, load_segment_lem}
use learning_osdev.Loader.Layout.{source, target, room, IsExecutable}

module _ {start : Paging} {elf_file file_end code_buffer top count : ℕ} {header : ℕ → ProgramHeader}
    {place : ℕ → ℕ}
    (x : IsExecutable start elf_file file_end code_buffer top count header place) where
  -- The state before the `k`-th header, with `left` more to come, and `text` printed so far.
  pub record IsLoading (k left : ℕ) (text : List ℕ) (s : Paging) : Type 0 where
    pub owner : Owner
    pub tables : IsTables owner s
    pub bytes : IsBytes s.mem
    pub file_same : (a : ℕ) → elf_file ≤ a → a < file_end → s.mem a ≡ start.mem a
    pub tables_fit : s.it + room header left k ≤ top
    pub printed : s.console ≡ shown text start.console
    -- Outside of the tables only the copies change.
    pub still_small :
        (w : ℕ) → is_small (translate start w) ≡ true → is_small (translate s w) ≡ true
    -- The segments so far have their bytes and their pages.
    pub copied :
        (j i : ℕ)
        → j < k
        → (header j).type ≡ 1
        → i < (header j).filesz
        → s.mem (target header code_buffer j + i) ≡ start.mem (source header elf_file j + i)
    pub mapped :
        (j i w : ℕ)
        → j < k
        → (header j).type ≡ 1
        → i < pages (header j).memsz
        → page_of w ≡ page_of ((header j).vaddr + 0x1000 * i)
        → translate s w ≡ page 0 (frame_of (target header code_buffer j) + w % 2 ^ 12)

  -- A header that is no segment to load changes nothing.
  pub IsLoading-skip :
      {k left : ℕ} {text : List ℕ} {s : Paging}
      → (header k).type ≢ 1
      → IsLoading k (suc left) text s
      → IsLoading (k + 1) left text s
  unfolding room
  IsLoading-skip {k} ne at = record {
    owner = at.owner;
    tables = at.tables;
    bytes = at.bytes;
    file_same = at.file_same;
    tables_fit = omega (arith, at.tables_fit);
    printed = at.printed;
    still_small = at.still_small;
    copied = λ j i lt t. at.copied j i (before j lt t) t;
    mapped = λ j i w lt t. at.mapped j i w (before j lt t) t;
  }
    where
      before : (j : ℕ) → j < k + 1 → (header j).type ≡ 1 → j < k
      before j lt t = elim (Bool-cases (j == k)) [
        | inl e ↦ let here : j ≡ k = ground arith in absurd (ne (rw (← here) t))
        | inr other ↦ ground arith
      ]

  -- A text that is printed changes nothing else.
  pub IsLoading-print :
      {k left : ℕ} {text : List ℕ} {s : Paging} (xs : List ℕ)
      → IsLoading k left text s
      → IsLoading k left (text ++ xs) (with_console (shown xs s.console) s)
  IsLoading-print {text} {s} xs at = record {
    owner = at.owner;
    tables = IsTables-console (shown xs s.console) at.tables;
    bytes = at.bytes;
    file_same = at.file_same;
    tables_fit = at.tables_fit;
    printed = rw at.printed (shown-append text xs start.console);
    still_small =
        λ w small. rw (translate-console s (shown xs s.console) w) (at.still_small w small);
    copied = at.copied;
    mapped =
        λ j i w lt t il e. translate-console s (shown xs s.console) w ∙ at.mapped j i w lt t il e;
  }

  pub header_kept :
      {i left : ℕ} {text : List ℕ} {s : Paging}
      → IsLoading i left text s
      → (k : ℕ) → k < count
      → program_header s.mem (place k) ≡ header k
  header_kept {s} at k lt =
      program_header-cong s.mem start.mem (place k) (λ a lo hi.
        at.file_same a (omega (arith, x.header_low k lt)) (omega (arith, x.header_high k lt)))
      ∙ x.headers k lt

  module _ {k left : ℕ} {text : List ℕ} {s : Paging} (at : IsLoading k (suc left) text s)
      (lt : k < count) where
    module _ (load : (header k).type ≡ 1) where
      room_left : s.it + pages (header k).memsz * (3 * 4096) + room header left (k + 1) ≤ top
      unfolding room
      room_left = ground (arith, at.tables_fit)

      pub segment :
          IsSegment
            (target header code_buffer k)
            (source header elf_file k)
            (header k).filesz
            (pages (header k).memsz)
            (header k).vaddr
            (frame_of (target header code_buffer k))
            s
            (load_segment elf_file code_buffer (place k) s)
      segment =
          let l = x.loadable k lt load in
          load_segment_lem elf_file code_buffer (place k) (header k) s (pages (header k).memsz)
            (target header code_buffer k) (source header elf_file k) at.tables at.bytes
            (header_kept at k lt) refl refl refl l.fits (omega (arith, l.source_high, x.file_fits))
            (ground (arith, l.source_low, l.source_high, l.clear_of_file))
            (omega (arith, room_left, l.above)) (omega (arith, room_left, x.top_low))
            (ground (arith, l.clear_of_file, x.header_low k lt, x.header_high k lt))
            (omega (arith, room_left, x.top_below, x.header_low k lt))
            (λ j lo hi. at.still_small _ (l.small j lo hi))

      module _ {result : Option (Unit {0} × Paging)}
          (seg : IsSegment
            (target header code_buffer k)
            (source header elf_file k)
            (header k).filesz
            (pages (header k).memsz)
            (header k).vaddr
            (frame_of (target header code_buffer k))
            s
            result) where
        low_enough : seg.after.it ≤ top
        low_enough = omega (arith, seg.it_bound, room_left)

        copied_after :
            (j i : ℕ)
            → j < k + 1
            → (header j).type ≡ 1
            → i < (header j).filesz
            → seg.after.mem (target header code_buffer j + i)
              ≡ start.mem (source header elf_file j + i)
        copied_after j i jl t il = elim (Bool-cases (j == k)) [
          | inl e ↦
              let here : j ≡ k = ground arith in
              let l = x.loadable k lt load in
              let il' : i < (header k).filesz = rw (← here) il in
              rw here (
                seg.copied i il'
                ∙ at.file_same (source header elf_file k + i) (omega (arith, l.source_low))
                    (omega (arith, l.source_high)))
          | inr other ↦
              let earlier : j < k = ground arith in
              let l = x.loadable j (omega arith) t in
              seg.outside (target header code_buffer j + i) (omega (arith, low_enough, l.above))
                (ground (arith, (x.apart j k earlier lt t load).copies))
              ∙ at.copied j i earlier t il
        ]

        mapped_after :
            (j i w : ℕ)
            → j < k + 1
            → (header j).type ≡ 1
            → i < pages (header j).memsz
            → page_of w ≡ page_of ((header j).vaddr + 0x1000 * i)
            → translate seg.after w ≡ page 0 (frame_of (target header code_buffer j) + w % 2 ^ 12)
        mapped_after j i w jl t il e = elim (Bool-cases (j == k)) [
          | inl same ↦
              let here : j ≡ k = ground arith in
              rw here (seg.mapped i w (rw (← here) il) (rw (← here) e))
          | inr other ↦
              let earlier : j < k = ground arith in
              seg.others w (λ b bl q. (x.apart j k earlier lt t load).no_page i b il bl (sym e ∙ q))
              ∙ at.mapped j i w earlier t il e
        ]

        pub IsLoading-load : IsLoading (k + 1) left text seg.after
        IsLoading-load = record {
          owner = seg.owner;
          tables = seg.well_formed;
          bytes = seg.bytes;
          file_same = λ a lo hi.
              seg.outside a (omega (arith, low_enough, x.top_below))
                (ground (arith, (x.loadable k lt load).clear_of_file))
              ∙ at.file_same a lo hi;
          tables_fit = omega (arith, seg.it_bound, room_left);
          printed = seg.console_same ∙ at.printed;
          still_small = λ w small. elim (seg.kept w) [
            | inl e ↦ rw e (at.still_small w small)
            | inr e ↦ rw e refl
          ];
          copied = copied_after;
          mapped = mapped_after;
        }
