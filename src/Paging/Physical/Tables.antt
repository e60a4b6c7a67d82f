-- ===== src/Paging/Physical/Tables.antt =====
-- Page tables to which a table of pages of 1 GiB is added at entry 256 of the top table: they stay
-- well-formed, and only translations through that entry change.
use learning_osdev.Base.{
  ℕ, zero, suc, ◌+◌, ◌*◌, ◌/◌, ◌%◌, ◌^◌, ◌≤◌, ◌<◌, ◌≡◌, ◌≢◌, ◌⊎◌, inl, inr, refl, arith, some,
  Bool-cases, ◌==◌, ltb, if◌then◌else◌, true, false, ◌∙◌, sym,
}
use learning_osdev.Mem.{Memory}
use learning_osdev.Paging.{Paging, entry, present, huge_page, get_pte_address, p4table}
use learning_osdev.Paging.Entries.{
  frame, present-zero, link-present, link-small, link-frame, link-address, huge-present,
  huge-huge_page,
}
use learning_osdev.Paging.Walk.{page, index, walk, leaf, index-lt, walk-table, walk-huge}
use learning_osdev.Paging.Invariant.{Owner, IsTables}
use learning_osdev.Paging.Extend.{same_cases}

-- The memory `after` is `before` with a table at `new` that maps `num` gigabytes and is entered
-- from entry 256 of the top table.
pub record IsPhysical (own : Owner) (num new : ℕ) (before after : Memory) : Type 0 where
  pub now : entry after p4table 256 ≡ new + 3
  pub gigabytes : (j : ℕ) → j < num → entry after new j ≡ j * 2 ^ 30 + 131
  pub rest : (j : ℕ) → num ≤ j → j < 512 → entry after new j ≡ 0
  pub same :
      (u k d j : ℕ)
      → own u ≡ some (k, d)
      → j < 512
      → (u ≢ p4table) ⊎ (j ≢ 256)
      → entry after u j ≡ entry before u j

module _ {own : Owner} {s : Paging} (tables : IsTables own s) {num : ℕ} {after : Memory}
    (few : num < 512) (small : s.it < 2 ^ 52) (x : IsPhysical own num s.it s.mem after) where
  walk-step :
      (k u d v : ℕ)
      → own u ≡ some (suc k, d)
      → entry after u (index (suc k) v) ≡ entry s.mem u (index (suc k) v)
      → ((w : ℕ)
          → own w ≡ some (k, d * 512 + index (suc k) v)
          → walk after k w v ≡ walk s.mem k w v)
      → walk after (suc k) u v ≡ walk s.mem (suc k) u v
  unfolding walk
  walk-step k u d v o same rest = ground (
    arith,
    same,
    tables.linked u k d (index (suc k) v) o (index-lt (suc k) v),
    rest (frame (entry s.mem u (index (suc k) v))),
  )

  -- A walk below the top table does not change.
  walk-low : (k u d v : ℕ) → k < 3 → own u ≡ some (k, d) → walk after k u v ≡ walk s.mem k u v
  walk-low zero u d v lt o =
      unfold walk in
      rw (x.same u 0 d (index 0 v) o (index-lt 0 v) (inl (ground (arith, tables.root))))
  walk-low (suc k) u d v lt o =
      walk-step k u d v o
        (x.same u (suc k) d (index (suc k) v) o (index-lt (suc k) v)
          (inl (ground (arith, tables.root))))
        (λ w o'. walk-low k w (d * 512 + index (suc k) v) v (omega arith) o')

  pub walk-elsewhere : (v : ℕ) → index 3 v ≢ 256 → walk after 3 p4table v ≡ walk s.mem 3 p4table v
  walk-elsewhere v ne =
      walk-step 2 p4table 0 v tables.root
        (x.same p4table 3 0 (index 3 v) tables.root (index-lt 3 v) (inr ne))
        (λ w o. walk-low 2 w (0 * 512 + index 3 v) v (omega arith) o)

  gib_frame : (j v : ℕ) → j < 512 → leaf 2 (j * 2 ^ 30 + 131) v ≡ page 2 (j * 2 ^ 30 + v % 2 ^ 30)
  unfolding leaf
  gib_frame j v lt =
      let e : (j * 2 ^ 30 + 131) / 2 ^ 30 % 2 ^ 22 * 2 ^ 30 ≡ j * 2 ^ 30 = omega arith in rw e refl

  gib_aligned : (j : ℕ) → j * 2 ^ 30 % 2 ^ 21 ≡ 0
  gib_aligned j = omega arith

  pub walk-gigabyte :
      (v : ℕ)
      → index 3 v ≡ 256
      → index 2 v < num
      → walk after 3 p4table v ≡ page 2 (index 2 v * 2 ^ 30 + v % 2 ^ 30)
  walk-gigabyte v top lt =
      let now : entry after p4table (index 3 v) ≡ s.it + 3 = rw top x.now in
      let gib = x.gigabytes (index 2 v) lt in
      walk-table after 2 p4table v (rw now (link-present s.it tables.it_aligned small))
        (rw now (link-small s.it tables.it_aligned small))
      ∙ rw (now, link-frame s.it tables.it_aligned small)
          (walk-huge after 1 s.it v
              (rw gib (huge-present (index 2 v * 2 ^ 30) (gib_aligned (index 2 v))))
              (rw gib (huge-huge_page (index 2 v * 2 ^ 30) (gib_aligned (index 2 v))))
            ∙ rw gib (gib_frame (index 2 v) v (omega arith)))

  -- The new table is owned too.
  abbrev pub physical_owner : Owner
  physical_owner a = if a == s.it then some (2, 256) else own a

  owner_cases :
      (u k d : ℕ)
      → physical_owner u ≡ some (k, d)
      → ((u ≡ s.it) × (k ≡ 2) × (d ≡ 256)) ⊎ ((u ≢ s.it) × (own u ≡ some (k, d)))
  owner_cases u k d o = ground arith

  entry_cases :
      (u k d j : ℕ)
      → physical_owner u ≡ some (suc k, d)
      → j < 512
      → (entry after u j ≡ 0)
        ⊎ (entry after u j ≡ j * 2 ^ 30 + 131)
        ⊎ ((entry after u j ≡ s.it + 3) × (k ≡ 2) × (d ≡ 0) × (j ≡ 256))
        ⊎ ((own u ≡ some (suc k, d)) × (entry after u j ≡ entry s.mem u j))
  entry_cases u k d j o jl = elim (owner_cases u (suc k) d o) [
    | inl (e, _, _) ↦ elim (Bool-cases (ltb j num)) [
      | inl lt ↦ inr (inl (rw e (x.gigabytes j (ground arith))))
      | inr ge ↦ inl (rw e (x.rest j (ground arith) jl))
    ]
    | inr (ne, old) ↦ elim (same_cases p4table u 256 j) [
      | inl (e, f) ↦ inr (
          inr (
            inl (
              rw (← e, ← f) x.now,
              ground (arith, tables.root),
              ground (arith, tables.root),
              sym f,
            )))
      | inr (inl other) ↦
          inr (inr (inr (old, x.same u (suc k) d j old jl (inl (λ e. other (sym e))))))
      | inr (inr other) ↦
          inr (inr (inr (old, x.same u (suc k) d j old jl (inr (λ e. other (sym e))))))
    ]
  ]

  old_owner : (a n d : ℕ) → own a ≡ some (n, d) → physical_owner a ≡ some (n, d)
  old_owner a n d o = ground (arith, tables.placed a n d o)

  linked-physical :
      (u k d j : ℕ)
      → physical_owner u ≡ some (suc k, d)
      → j < 512
      → present (entry after u j) ≡ true
      → huge_page (entry after u j) ≡ false
      → (physical_owner (frame (entry after u j)) ≡ some (k, d * 512 + j))
        × (get_pte_address (entry after u j) ≡ frame (entry after u j))
  linked-physical u k d j o jl p h = elim (entry_cases u k d j o jl) [
    | inl zero_entry ↦ absurd (ground (arith, present-zero))
    | inr (inl gib) ↦ absurd (ground (arith, huge-huge_page (j * 2 ^ 30) (gib_aligned j)))
    | inr (inr (inl (e, ek, ed, ej))) ↦
        rw
          (
            e,
            ek,
            ed,
            ej,
            link-frame s.it tables.it_aligned small,
            link-address s.it tables.it_aligned small,
          )
          (ground arith, refl)
    | inr (inr (inr (old, e))) ↦
        let l = tables.linked u k d j old jl (rw (← e) p) (rw (← e) h) in
        rw e (old_owner (frame (entry s.mem u j)) k (d * 512 + j) l.0, l.1)
  ]

  pub IsTables-physical :
      IsTables physical_owner (record s { mem = after; it = s.it + 4096; cr3 = p4table })
  IsTables-physical = record {
    root = old_owner p4table 3 0 tables.root;
    placed = λ u k d o. ground (arith, owner_cases u k d o, tables.placed u k d, tables.it_aligned);
    linked = linked-physical;
    cleared = λ u k d j o jl p. ground (
      arith,
      entry_cases u k d j o jl,
      link-present s.it tables.it_aligned small,
      huge-present (j * 2 ^ 30) (gib_aligned j),
      tables.cleared u k d j,
    );
    it_aligned = omega (arith, tables.it_aligned);
  }
