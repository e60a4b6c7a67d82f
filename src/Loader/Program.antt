-- ===== src/Loader/Program.antt =====
-- map_kernel of bootloader/cboot/src/main.c on an executable.
use learning_osdev.Base.{
  List, ℕ, zero, suc, ◌+◌, ◌-◌, ◌≤◌, ◌<◌, ◌≡◌, ◌≢◌, inl, inr, refl, ◌∙◌, arith, true, false,
  Bool-cases, Option, some, ltb, ◌==◌, subst,
}
use learning_osdev.Mem.Words.{IsBytes, load64-cong}
use learning_osdev.Print.Text.{shown}
use learning_osdev.Elf.Text.{title, load_text, print_title-Prints, print_load-Prints}
use learning_osdev.Paging.Printing.{
  with_console, prints-Prints, IsTables-console, translate-console,
}
use learning_osdev.Paging.{Paging, ◌>>=◌, ◌>>◌}
use learning_osdev.Paging.Invariant.{Owner, IsTables}
use learning_osdev.Elf.{
  ProgramHeader, entry_point, program_header_table_entry_size, program_header_table_entry_count,
}
use learning_osdev.Elf.Words.{load16-cong}
use learning_osdev.Loader.{load_header, map_kernel_loop, map_kernel}
use learning_osdev.Loader.Rounds.{
  IsLoading-print, IsLoading, IsLoading-skip, IsLoading-load, segment, header_kept,
}
use learning_osdev.Loader.Layout.{text_with, text_after, size_with, size_after, IsExecutable}

module _ {start : Paging} {elf_file file_end code_buffer top count : ℕ} {header : ℕ → ProgramHeader}
    {place : ℕ → ℕ}
    (x : IsExecutable start elf_file file_end code_buffer top count header place) where
  -- One round of the loop, up to the next header.
  record IsRound (k left : ℕ) (text : List ℕ) (size : ℕ) (result : Option (ℕ × Paging))
      : Type 0 where
    after : Paging
    returns : result ≡ some (size, after)
    next : IsLoading x (k + 1) left text after

  load_header-IsRound :
      {k left : ℕ} {text : List ℕ} {s : Paging} (size : ℕ)
      → IsLoading x k (suc left) text s
      → k < count
      → IsRound k left
          (text_with header k text)
          (size_with header k size)
          (load_header elf_file code_buffer (place k) size s)
  unfolding load_header
  load_header-IsRound {k} {s} size at lt = elim (Bool-cases ((header k).type == 1)) [
    | inl one ↦
        let load : (header k).type ≡ 1 = ground arith in
        let line = prints-Prints s (print_load-Prints (header k)) in
        let told = IsLoading-print x (load_text (header k)) at in
        let seg = segment x told lt load in
        let next = IsLoading-load x told lt load seg in
        rw (header_kept x at k lt, one, ◌>>◌, line, ◌>>=◌, seg.returns, header_kept x next k lt)
          (record { after = seg.after; returns = refl; next = next })
    | inr other ↦
        let skip : (header k).type ≢ 1 = ground arith in
        rw (header_kept x at k lt, other)
          (record { after = s; returns = refl; next = IsLoading-skip x skip at })
  ]

  -- `result` is a normal end with `value`, every segment loaded and `text` printed.
  pub record IsKernel {V : Type 0} (text : List ℕ) (value : V) (result : Option (V × Paging))
      : Type 0 where
    pub after : Paging
    pub returns : result ≡ some (value, after)
    pub loaded : IsLoading x count 0 text after

  entry_size_kept :
      {i left : ℕ} {text : List ℕ} {s : Paging}
      → IsLoading x i left text s
      → program_header_table_entry_size s.mem elf_file
        ≡ program_header_table_entry_size start.mem elf_file
  entry_size_kept {s} at =
      load16-cong s.mem start.mem (elf_file + 54)
        (λ a lo hi. at.file_same a (omega arith) (omega (arith, x.file_header)))

  entry_point_kept :
      {i left : ℕ} {text : List ℕ} {s : Paging}
      → IsLoading x i left text s
      → entry_point s.mem elf_file ≡ entry_point start.mem elf_file
  entry_point_kept {s} at =
      load64-cong s.mem start.mem (elf_file + 24)
        (λ a lo hi. at.file_same a (omega arith) (omega (arith, x.file_header)))

  entry_count_kept :
      {i left : ℕ} {text : List ℕ} {s : Paging}
      → IsLoading x i left text s
      → program_header_table_entry_count s.mem elf_file ≡ count
  entry_count_kept {s} at =
      load16-cong s.mem start.mem (elf_file + 56)
        (λ a lo hi. at.file_same a (omega arith) (omega (arith, x.file_header)))
      ∙ x.counted

  map_kernel_loop-IsKernel :
      (f k left : ℕ) (text : List ℕ) (s : Paging) (size : ℕ)
      → IsLoading x k (suc left) text s
      → k + suc left ≡ count
      → left < f
      → IsKernel
          (text_after header (suc left) k text)
          (size_after header (suc left) k size)
          (map_kernel_loop f elf_file code_buffer (place k) k size s)
  unfolding map_kernel_loop size_after text_after
  map_kernel_loop-IsKernel zero k left text s size at e enough = absurd (omega arith)
  map_kernel_loop-IsKernel (suc f) k zero text s size at e enough =
      let r = load_header-IsRound size at (omega arith) in
      let done : ltb (k + 1) count ≡ false = ground arith in
      let all : k + 1 ≡ count = omega arith in
      rw (◌>>=◌, r.returns, entry_count_kept r.next, done)
        (record {
          after = r.after;
          returns = refl;
          loaded = subst (λ n. IsLoading x n 0 (text_with header k text) r.after) all r.next;
        })
  map_kernel_loop-IsKernel (suc f) k (suc left) text s size at e enough =
      let r = load_header-IsRound size at (omega arith) in
      let more : ltb (k + 1) count ≡ true = ground arith in
      rw
        (
          ◌>>=◌,
          r.returns,
          entry_count_kept r.next,
          entry_size_kept r.next,
          more,
          ← x.next k (omega arith),
        )
        (map_kernel_loop-IsKernel f (k + 1) left (text_with header k text) r.after
          (size_with header k size) r.next (omega arith) (omega arith))

  pub map_kernel_lem :
      {own : Owner} (fuel size : ℕ)
      → IsTables own start
      → IsBytes start.mem
      → count ≤ fuel
      → IsKernel
          (text_after header count 0 title)
          (entry_point start.mem elf_file, size_after header count 0 size)
          (map_kernel fuel elf_file code_buffer size start)
  unfolding map_kernel
  map_kernel_lem {own} fuel size tables bytes enough =
      let e : suc (count - 1) ≡ count = omega (arith, x.some_header) in
      let told = with_console (shown title start.console) start in
      let at : IsLoading x 0 (suc (count - 1)) title told = record {
        owner = own;
        tables = IsTables-console (shown title start.console) tables;
        bytes = bytes;
        file_same = λ a lo hi. refl;
        tables_fit = rw e x.tables_fit;
        printed = refl;
        still_small = λ w small. rw (translate-console start (shown title start.console) w) small;
        copied = λ j i lt t il. absurd (omega arith);
        mapped = λ j i w lt t il pg. absurd (omega arith);
      } in
      let run =
        map_kernel_loop-IsKernel fuel 0 (count - 1) title told size at
          (omega (arith, x.some_header)) (omega (arith, x.some_header)) in
      let l : IsKernel (text_after header count 0 title) (size_after header count 0 size)
          (map_kernel_loop fuel elf_file code_buffer (place 0) 0 size told) =
        subst
          (λ n.
            IsKernel (text_after header n 0 title) (size_after header n 0 size)
              (map_kernel_loop fuel elf_file code_buffer (place 0) 0 size told))
          e run in
      rw (◌>>◌, ◌>>=◌, prints-Prints start print_title-Prints)
        (rw (◌>>=◌, ← x.first, l.returns)
          (record {
            after = l.after;
            returns = rw (entry_point_kept l.loaded) refl;
            loaded = l.loaded;
          }))
