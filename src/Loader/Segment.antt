-- ===== src/Loader/Segment.antt =====
-- One segment that map_kernel of bootloader/cboot/src/main.c loads: its bytes and its pages.
use learning_osdev.Base.{
  ℕ, ◌+◌, ◌*◌, ◌/◌, ◌%◌, ◌^◌, ◌≤◌, ◌<◌, ◌≡◌, ◌≢◌, ◌⊎◌, ◌-◌, Bool-cases, leb, ltb, ◌&&◌, inl, inr,
  ◌∙◌, arith, Option, some, u64,
}
use learning_osdev.Mem.{Memory, memcpy}
use learning_osdev.Mem.Copy.{IsMemcpy, memcpy_lem}
use learning_osdev.Mem.Words.{IsBytes}
use learning_osdev.Paging.{Paging, ◌>>=◌, ◌>>◌}
use learning_osdev.Paging.Walk.{translate, page}
use learning_osdev.Paging.Outside.{IsTables-outside, translate-outside}
use learning_osdev.Paging.Invariant.{Owner, IsTables}
use learning_osdev.Elf.{ProgramHeader, program_header}
use learning_osdev.Loader.{align_up_4kb, load_address, frame_of, copy, map_pages, load_segment}
use learning_osdev.Elf.Words.{program_header-cong}
use learning_osdev.Loader.Pages.{page_of, IsLoaded, AreSmall, map_pages_lem}

-- The pages of the segment.
abbrev pub pages : ℕ → ℕ
pages memsz = align_up_4kb memsz / 0x1000

-- `result` is a normal end of load_segment for a segment of `size` bytes at `src`, which is copied
-- to `dst`, and of `n` pages at `v`.
pub record IsSegment (dst src size n v target : ℕ) (s : Paging)
    (result : Option (Unit {0} × Paging)) : Type 0 where
  pub after : Paging
  pub owner : Owner
  pub returns : result ≡ some (tt, after)
  pub well_formed : IsTables owner after
  -- The bytes of the segment are those of the file, and no other byte above the tables changes.
  pub copied : (i : ℕ) → i < size → after.mem (dst + i) ≡ s.mem (src + i)
  pub outside : (a : ℕ) → after.it ≤ a → (a < dst) ⊎ (dst + size ≤ a) → after.mem a ≡ s.mem a
  pub mapped :
      (j w : ℕ)
      → j < n
      → page_of w ≡ page_of (v + 0x1000 * j)
      → translate after w ≡ page 0 (target + w % 2 ^ 12)
  pub others :
      (w : ℕ)
      → ((j : ℕ) → j < n → page_of w ≢ page_of (v + 0x1000 * j))
      → translate after w ≡ translate s w
  pub kept :
      (w : ℕ)
      → (translate after w ≡ translate s w) ⊎ (translate after w ≡ page 0 (target + w % 2 ^ 12))
  pub bytes : IsBytes after.mem
  pub it_grows : s.it ≤ after.it
  pub it_bound : after.it ≤ s.it + n * (3 * 4096)
  pub cr3_same : after.cr3 ≡ s.cr3
  pub console_same : after.console ≡ s.console

copy-IsBytes :
    {dst src size : ℕ} {m : Memory} {result : Option Memory} (c : IsMemcpy dst src size m result)
    → IsBytes m
    → IsBytes c.out
copy-IsBytes {dst} {src} {size} c bytes a = elim (Bool-cases (leb dst a && ltb a (dst + size))) [
  | inl within ↦
      let o : dst + (a - dst) ≡ a = ground arith in
      rw (← o) (rw (c.inside (a - dst) (ground arith)) (bytes (src + (a - dst))))
  | inr out ↦ rw (c.outside a (ground arith)) (bytes a)
]

module _ (elf_file code_buffer elf_phdr : ℕ) (h : ProgramHeader) where
  load_segment-IsSegment :
      {own : Owner} (s : Paging) (n dst src : ℕ)
      → IsTables own s
      → IsBytes s.mem
      → program_header s.mem elf_phdr ≡ h
      → pages h.memsz ≡ n
      → load_address code_buffer h ≡ dst
      → u64 (elf_file + h.offset) ≡ src
      → IsMemcpy dst src h.filesz s.mem (memcpy dst src h.filesz s.mem)
      → s.it + n * (3 * 4096) ≤ dst
      → s.it + n * (3 * 4096) < 2 ^ 52
      → (elf_phdr + 56 ≤ dst) ⊎ (dst + h.filesz ≤ elf_phdr)
      → s.it + n * (3 * 4096) ≤ elf_phdr
      → AreSmall n 0 h.vaddr s
      → IsSegment dst src h.filesz n h.vaddr
          (frame_of dst)
          s
          (load_segment elf_file code_buffer elf_phdr s)
  unfolding load_segment copy
  load_segment-IsSegment s n dst src tables bytes eh en ed es c clear room apart above small =
      let t = record s { mem = c.out } in
      let same : program_header c.out elf_phdr ≡ h =
        program_header-cong c.out s.mem elf_phdr (λ a lo hi. c.outside a (ground arith)) ∙ eh in
      let below = λ (a : ℕ) (lt : a < s.it). c.outside a (inl (omega arith)) in
      let moved : (w : ℕ) → translate t w ≡ translate s w = translate-outside tables c.out below in
      let l : IsLoaded n 0 h.vaddr (frame_of dst) t (map_pages n 0 code_buffer elf_phdr t) =
        rw (← ed) (
          map_pages_lem code_buffer elf_phdr h n 0 t (IsTables-outside tables c.out below) same
            above room (λ j lo hi. rw (moved (u64 (h.vaddr + 0x1000 * j))) (small j lo hi))) in
      rw (eh, ◌>>◌, ◌>>=◌, ed, es, c.returns, same, en)
        (record {
          after = l.after;
          owner = l.owner;
          returns = l.returns;
          well_formed = l.well_formed;
          copied = λ i lt. l.outside (dst + i) (omega (arith, l.it_bound)) ∙ c.inside i lt;
          outside = λ a le out. l.outside a le ∙ c.outside a out;
          mapped = λ j w lt e. l.mapped j w (omega arith) (omega arith) e;
          others = λ w ne. l.others w (λ j lo lt. ne j (omega arith)) ∙ moved w;
          kept = λ w. elim (l.kept w) [ inl e ↦ inl (e ∙ moved w) | inr e ↦ inr e ];
          bytes = l.bytes (copy-IsBytes c bytes);
          it_grows = l.it_grows;
          it_bound = l.it_bound;
          cr3_same = l.cr3_same;
          console_same = l.console_same;
        })

  -- Where the tables are well-formed, the segment's copy and the header at `elf_phdr` lie above the
  -- tables and those that the segment can add, the file's bytes, the copy and the header do not
  -- overlap, and none of the pages at `vaddr` is part of a huge page, load_segment returns. Then the
  -- copy holds the file's bytes, no other byte above the tables has changed, every page of the
  -- segment is translated into the first frame of the copy, every other address is translated as
  -- before, and the tables are well-formed.
  pub load_segment_lem :
      {own : Owner} (s : Paging) (n dst src : ℕ)
      → IsTables own s
      → IsBytes s.mem
      → program_header s.mem elf_phdr ≡ h
      → pages h.memsz ≡ n
      → load_address code_buffer h ≡ dst
      → u64 (elf_file + h.offset) ≡ src
      → dst + h.filesz + 8 < 2 ^ 64
      → src + h.filesz + 8 < 2 ^ 64
      → (src + h.filesz ≤ dst) ⊎ (dst + h.filesz ≤ src)
      → s.it + n * (3 * 4096) ≤ dst
      → s.it + n * (3 * 4096) < 2 ^ 52
      → (elf_phdr + 56 ≤ dst) ⊎ (dst + h.filesz ≤ elf_phdr)
      → s.it + n * (3 * 4096) ≤ elf_phdr
      → AreSmall n 0 h.vaddr s
      → IsSegment dst src h.filesz n h.vaddr
          (frame_of dst)
          s
          (load_segment elf_file code_buffer elf_phdr s)
  load_segment_lem s n dst src tables bytes eh en ed es dst_fits src_fits disjoint =
      load_segment-IsSegment s n dst src tables bytes eh en ed es
        (memcpy_lem dst src h.filesz s.mem dst_fits src_fits disjoint bytes)
