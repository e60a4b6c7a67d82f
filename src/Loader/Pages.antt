-- ===== src/Loader/Pages.antt =====
-- The pages that map_kernel of bootloader/cboot/src/main.c maps for one segment.
use learning_osdev.Base.{
  ℕ, zero, suc, ◌+◌, ◌*◌, ◌/◌, ◌%◌, ◌^◌, ◌≤◌, ◌<◌, ◌≡◌, ◌≢◌, ◌⊎◌, inl, inr, refl, sym, ◌∙◌, arith,
  true, Bool-cases, Option, some, ◌==◌, u64,
}
use learning_osdev.Mem.Words.{IsBytes}
use learning_osdev.Paging.{Paging, ◌>>=◌, ◌>>◌}
use learning_osdev.Paging.Walk.{translate, is_small, page}
use learning_osdev.Paging.Invariant.{Owner, IsTables}
use learning_osdev.Paging.Mapped.{IsMapped}
use learning_osdev.Paging.Map4kb.{map_4kb_page_lem}
use learning_osdev.Elf.{ProgramHeader, program_header}
use learning_osdev.Elf.Words.{program_header-cong}
use learning_osdev.Loader.{load_address, frame_of, map_pages}

-- The number of the page of 4 KiB of an address.
abbrev pub page_of : ℕ → ℕ
page_of w = w / 2 ^ 12 % 2 ^ 36

frame_of-aligned : (a : ℕ) → frame_of a % 2 ^ 12 ≡ 0
unfolding frame_of
frame_of-aligned a = omega arith

frame_of-lt : (a : ℕ) → frame_of a < 2 ^ 52
unfolding frame_of
frame_of-lt a = omega arith

-- `result` is a normal end in which `n` pages from the `i`-th page of the segment at `v` on are all
-- translated into the frame at `target`, and no other address is translated in another way than
-- before.
pub record IsLoaded (n i v target : ℕ) (s : Paging) (result : Option (Unit {0} × Paging))
    : Type 0 where
  pub after : Paging
  pub owner : Owner
  pub returns : result ≡ some (tt, after)
  pub well_formed : IsTables owner after
  pub mapped :
      (j w : ℕ)
      → i ≤ j
      → j < i + n
      → page_of w ≡ page_of (v + 0x1000 * j)
      → translate after w ≡ page 0 (target + w % 2 ^ 12)
  pub others :
      (w : ℕ)
      → ((j : ℕ) → i ≤ j → j < i + n → page_of w ≢ page_of (v + 0x1000 * j))
      → translate after w ≡ translate s w
  pub kept :
      (w : ℕ)
      → (translate after w ≡ translate s w) ⊎ (translate after w ≡ page 0 (target + w % 2 ^ 12))
  pub it_grows : s.it ≤ after.it
  pub it_bound : after.it ≤ s.it + n * (3 * 4096)
  pub outside : (a : ℕ) → after.it ≤ a → after.mem a ≡ s.mem a
  pub bytes : IsBytes s.mem → IsBytes after.mem
  pub cr3_same : after.cr3 ≡ s.cr3
  pub console_same : after.console ≡ s.console

-- The pages from the `i`-th on are not part of huge pages.
abbrev pub AreSmall : ℕ → ℕ → ℕ → Paging → Type 0
AreSmall n i v s =
    (j : ℕ) → i ≤ j → j < i + n → is_small (translate s (u64 (v + 0x1000 * j))) ≡ true

page_of-u64 : (x : ℕ) → page_of (u64 x) ≡ page_of x
page_of-u64 x = omega arith

module _ (v target : ℕ) where
  IsLoaded-zero :
      {own : Owner} (i : ℕ) (s : Paging) → IsTables own s → IsLoaded 0 i v target s (some (tt, s))
  IsLoaded-zero {own} i s tables = record {
    after = s;
    owner = own;
    returns = refl;
    well_formed = tables;
    mapped = λ j w lo hi e. absurd (omega arith);
    others = λ w ne. refl;
    kept = λ w. inl refl;
    it_grows = omega arith;
    it_bound = omega arith;
    outside = λ a le. refl;
    bytes = λ b. b;
    cr3_same = refl;
    console_same = refl;
  }

  module _ (i : ℕ) {s : Paging} {r1 : Option (Unit {0} × Paging)}
      (first : IsMapped 0 12 (u64 (v + 0x1000 * i)) target 3 s r1) where
    first-here :
        (w : ℕ)
        → page_of w ≡ page_of (v + 0x1000 * i)
        → translate first.after w ≡ page 0 (target + w % 2 ^ 12)
    first-here w e = first.mapped w (e ∙ sym (page_of-u64 (v + 0x1000 * i)))

    first-else :
        (w : ℕ) → page_of w ≢ page_of (v + 0x1000 * i) → translate first.after w ≡ translate s w
    first-else w ne = first.others w (λ e. ne (e ∙ page_of-u64 (v + 0x1000 * i)))

    -- After the first page the others are still small.
    AreSmall-next : (n : ℕ) → AreSmall (suc n) i v s → AreSmall n (i + 1) v first.after
    AreSmall-next n small j lo hi =
        let w = u64 (v + 0x1000 * j) in
        elim (Bool-cases (page_of w == page_of (v + 0x1000 * i))) [
          | inl e ↦ rw (first-here w (ground arith)) refl
          | inr ne ↦ rw (first-else w (ground arith)) (small j (omega arith) (omega arith))
        ]

    module _ (n : ℕ) {r2 : Option (Unit {0} × Paging)}
        (rest : IsLoaded n (i + 1) v target first.after r2) where
      first-stays :
          (w : ℕ)
          → page_of w ≡ page_of (v + 0x1000 * i)
          → translate rest.after w ≡ page 0 (target + w % 2 ^ 12)
      first-stays w e = elim (rest.kept w) [ inl k ↦ k ∙ first-here w e | inr m ↦ m ]

      first-kept :
          (w : ℕ)
          → (translate rest.after w ≡ translate s w)
            ⊎ (translate rest.after w ≡ page 0 (target + w % 2 ^ 12))
      first-kept w = elim (Bool-cases (page_of w == page_of (v + 0x1000 * i))) [
        | inl e ↦ inr (first-stays w (ground arith))
        | inr ne ↦ elim (rest.kept w) [
          | inl k ↦ inl (k ∙ first-else w (ground arith))
          | inr m ↦ inr m
        ]
      ]

      IsLoaded-step : IsLoaded (suc n) i v target s r2
      IsLoaded-step = record {
        after = rest.after;
        owner = rest.owner;
        returns = rest.returns;
        well_formed = rest.well_formed;
        mapped = λ j w lo hi e. elim (Bool-cases (j == i)) [
          | inl here ↦ first-stays w (ground arith)
          | inr later ↦ rest.mapped j w (ground arith) (omega arith) e
        ];
        others = λ w ne.
            rest.others w (λ j lo hi. ne j (omega arith) (omega arith))
            ∙ first-else w (ne i (omega arith) (omega arith));
        kept = first-kept;
        it_grows = omega (arith, rest.it_grows, first.it_grows);
        it_bound = omega (arith, rest.it_bound, first.it_bound);
        outside = λ a le. rest.outside a le ∙ first.outside a (omega (arith, rest.it_grows));
        bytes = λ b. rest.bytes (first.bytes b);
        cr3_same = rest.cr3_same ∙ first.cr3_same;
        console_same = rest.console_same ∙ first.console_same;
      }

module _ (code_buffer elf_phdr : ℕ) (h : ProgramHeader) where
  -- Where the header at `elf_phdr` lies above every table, the pages are not part of huge pages and
  -- three tables for each of them fit below 2 ^ 52, the loop returns, and each of the pages is
  -- translated into the one frame at the start of the segment's copy; the tables are well-formed
  -- again, and every other address is translated as before.
  pub map_pages_lem :
      (n : ℕ) {own : Owner} (i : ℕ) (s : Paging)
      → IsTables own s
      → program_header s.mem elf_phdr ≡ h
      → s.it + n * (3 * 4096) ≤ elf_phdr
      → s.it + n * (3 * 4096) < 2 ^ 52
      → AreSmall n i h.vaddr s
      → IsLoaded n i h.vaddr
          (frame_of (load_address code_buffer h))
          s
          (map_pages n i code_buffer elf_phdr s)
  unfolding map_pages
  map_pages_lem zero i s tables e above room small = IsLoaded-zero h.vaddr _ i s tables
  map_pages_lem (suc n) i s tables e above room small =
      let a = load_address code_buffer h in
      let first =
        map_4kb_page_lem (u64 (h.vaddr + 0x1000 * i)) (frame_of a) s (frame_of-aligned a)
          (frame_of-lt a) tables (small i (omega arith) (omega arith)) (omega arith) in
      let same : program_header first.after.mem elf_phdr ≡ h =
        program_header-cong first.after.mem s.mem elf_phdr
          (λ b lo hi. first.outside b (omega (arith, first.it_bound)))
        ∙ e in
      rw (e, ◌>>◌, ◌>>=◌, first.returns)
        (IsLoaded-step h.vaddr (frame_of a) i first n (
          map_pages_lem n (i + 1) first.after first.well_formed same (omega (arith, first.it_bound))
            (omega (arith, first.it_bound)) (AreSmall-next h.vaddr (frame_of a) i first n small)))
