-- ===== src/Paging/Physical/Example.antt =====
-- Tables that map the first gigabyte to itself, in front of a memory that is zero from 0x1000 on.
use learning_osdev.Base.{
  [], ℕ, suc, ◌+◌, ◌*◌, ◌%◌, ◌^◌, ◌<◌, ◌≤◌, ◌≡◌, ◌≢◌, ◌⊎◌, inl, inr, refl, arith, true, false,
  Bool-cases, none, some, ◌==◌, if◌then◌else◌, ◌∙◌, ap,
}
use learning_osdev.Mem.{Memory, store64}
use learning_osdev.Mem.Words.{load64-zero}
use learning_osdev.Print.{Console}
use learning_osdev.Paging.{Paging, present, huge_page, get_pte_address, entry}
use learning_osdev.Paging.Entries.{frame, entry-store64, entry-store64_ne}
use learning_osdev.Paging.Walk.{page, translate, leaf, index, walk-table, walk-huge}
use learning_osdev.Paging.Invariant.{Owner, IsTables}
use learning_osdev.Paging.Physical.Map.{IsIdentity}

abbrev pub console : Console
console = record {
  screen = record {
    vga_buffer = λ n. record { character = b' '; colour = 7 };
    column_counter = 0;
    foreground = 7;
    background = 0;
  };
  serial = [];
}

module _ (lower : Memory) (above : (a : ℕ) → 0x1000 ≤ a → lower a ≡ 0) where
  abbrev pub boot_mem : Memory
  boot_mem = store64 (store64 lower 0x1000 0x2003) 0x2000 131

  abbrev pub boot : Paging
  boot = record { mem = boot_mem; it = 0x20000; cr3 = 0x1000; console = console }

  abbrev pub boot_owner : Owner
  boot_owner t = if t == 0x1000 then some (3, 0) else if t == 0x2000 then some (2, 0) else none

  empty_entry : (t i : ℕ) → 0x1000 ≤ t → entry lower t i ≡ 0
  unfolding entry
  empty_entry t i le = load64-zero lower (t + 8 * i) (λ a lo hi. above a (omega arith))

  pub boot_entry :
      (t j : ℕ)
      → t % 4096 ≡ 0
      → 0x1000 ≤ t
      → j < 512
      → entry boot_mem t j
        ≡ (if j == 0 then (if t == 0x2000 then 131 else if t == 0x1000 then 0x2003 else 0) else 0)
  boot_entry t j at le jl = elim (Bool-cases (j == 0)) [
    | inl z ↦
        let zero_index : j ≡ 0 = ground arith in
        rw zero_index (elim (Bool-cases (t == 0x2000)) [
          | inl low ↦
              let here : t ≡ 0x2000 = ground arith in
              rw here (entry-store64 (store64 lower 0x1000 0x2003) 0x2000 0 131 (omega arith))
          | inr not_low ↦
              let ne : 0x2000 ≢ t = ground arith in
              entry-store64_ne (store64 lower 0x1000 0x2003) 0x2000 0 131 t 0 refl at (omega arith)
                (omega arith) (inl ne)
              ∙ rw not_low (elim (Bool-cases (t == 0x1000)) [
                | inl top ↦
                    let here : t ≡ 0x1000 = ground arith in
                    rw here (entry-store64 lower 0x1000 0 0x2003 (omega arith))
                | inr other ↦
                    let ne' : 0x1000 ≢ t = ground arith in
                    rw other (
                      entry-store64_ne lower 0x1000 0 0x2003 t 0 refl at (omega arith) (omega arith)
                        (inl ne')
                      ∙ empty_entry t 0 le)
              ])
        ])
    | inr nz ↦
        let ne : 0 ≢ j = ground arith in
        rw nz (
          entry-store64_ne (store64 lower 0x1000 0x2003) 0x2000 0 131 t j refl at (omega arith) jl
            (inr ne)
          ∙ entry-store64_ne lower 0x1000 0 0x2003 t j refl at (omega arith) jl (inr ne)
          ∙ empty_entry t j le)
  ]

  boot_entries :
      (t n c j : ℕ)
      → boot_owner t ≡ some (suc n, c)
      → j < 512
      → ((t ≡ 0x1000) × (n ≡ 2) × (c ≡ 0) × (entry boot_mem t j ≡ (if j == 0 then 0x2003 else 0)))
        ⊎ ((t ≡ 0x2000) × (n ≡ 1) × (c ≡ 0) × (entry boot_mem t j ≡ (if j == 0 then 131 else 0)))
  boot_entries t n c j o jl = ground (arith, boot_entry t j)

  pub boot-IsTables : IsTables boot_owner boot
  boot-IsTables = record {
    root = refl;
    placed = λ t n c o. ground arith;
    linked = λ t n c j o jl p h. linked_entry t n c j p h (boot_entries t n c j o jl);
    cleared = λ t n c j o jl p. cleared_entry t n c j p (boot_entries t n c j o jl);
    it_aligned = refl;
  }
    where
      -- The two tables.
      Cases : ℕ → ℕ → ℕ → ℕ → Type 0
      Cases t n c j =
          ((t ≡ 0x1000) × (n ≡ 2) × (c ≡ 0) × (entry boot_mem t j ≡ (if j == 0 then 0x2003 else 0)))
          ⊎ ((t ≡ 0x2000) × (n ≡ 1) × (c ≡ 0) × (entry boot_mem t j ≡ (if j == 0 then 131 else 0)))

      linked_entry :
          (t n c j : ℕ)
          → present (entry boot_mem t j) ≡ true
          → huge_page (entry boot_mem t j) ≡ false
          → Cases t n c j
          → (boot_owner (frame (entry boot_mem t j)) ≡ some (n, c * 512 + j))
            × (get_pte_address (entry boot_mem t j) ≡ frame (entry boot_mem t j))
      linked_entry t n c j p h cases =
          unfold present huge_page frame get_pte_address in ground arith

      cleared_entry :
          (t n c j : ℕ)
          → present (entry boot_mem t j) ≡ false
          → Cases t n c j
          → entry boot_mem t j ≡ 0
      cleared_entry t n c j p cases = unfold present in ground arith

  boot_walk : (v : ℕ) → v < 2 ^ 30 → translate boot v ≡ page 2 v
  unfolding translate present huge_page frame leaf
  boot_walk v lt =
      let i3 : index 3 v ≡ 0 = unfold index in omega arith in
      let i2 : index 2 v ≡ 0 = unfold index in omega arith in
      let at : v % 2 ^ 30 ≡ v = omega arith in
      walk-table boot_mem 2 0x1000 v
        (rw (i3, boot_entry 0x1000 0 refl (omega arith) (omega arith)) refl)
        (rw (i3, boot_entry 0x1000 0 refl (omega arith) (omega arith)) refl)
      ∙ rw (i3, boot_entry 0x1000 0 refl (omega arith) (omega arith))
          (walk-huge boot_mem 1 0x2000 v
              (rw (i2, boot_entry 0x2000 0 refl (omega arith) (omega arith)) refl)
              (rw (i2, boot_entry 0x2000 0 refl (omega arith) (omega arith)) refl)
            ∙ rw (i2, boot_entry 0x2000 0 refl (omega arith) (omega arith), at)
                (ap (λ (a : ℕ). page 2 a) (omega arith)))

  pub boot-IsIdentity : IsIdentity boot (2 ^ 20)
  boot-IsIdentity v lt = (2, boot_walk v (omega arith))
