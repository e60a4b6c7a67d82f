-- ===== src/Paging/Extend.antt =====
-- Page tables to which an empty table is added: they stay well-formed, and no translation changes.
use learning_osdev.Base.{
  ℕ, zero, suc, ◌+◌, ◌*◌, ◌%◌, ◌^◌, ◌<◌, ◌≡◌, ◌≢◌, ◌⊎◌, inl, inr, refl, arith, true, false, some,
  if◌then◌else◌, ◌==◌, sym, ◌∙◌,
}
use learning_osdev.Mem.{Memory}
use learning_osdev.Paging.{present, huge_page, get_pte_address, entry, Paging, p4table}
use learning_osdev.Paging.Entries.{
  frame, present-zero, link-present, link-small, link-frame, link-address,
}
use learning_osdev.Paging.Walk.{unmapped, index, walk, index-lt, walk-absent, walk-table}
use learning_osdev.Paging.Invariant.{Owner, IsTables}

-- A table of zeroes maps nothing.
walk-zero :
    (m : Memory) (n t v : ℕ) → ((i : ℕ) → i < 512 → entry m t i ≡ 0) → walk m n t v ≡ unmapped
walk-zero m n t v zeros = walk-absent m n t v (rw (zeros (index n v) (index-lt n v)) present-zero)

-- The memory `after` is `before` with an empty table at `new` entered from entry `i` of `t`.
pub record IsExtended (own : Owner) (t n c i new : ℕ) (before after : Memory) : Type 0 where
  pub owned : own t ≡ some (suc n, c)
  pub below : i < 512
  pub was_absent : present (entry before t i) ≡ false
  pub now : entry after t i ≡ new + 3
  pub empty : (j : ℕ) → j < 512 → entry after new j ≡ 0
  pub same :
      (u k d j : ℕ)
      → own u ≡ some (k, d)
      → j < 512
      → (t ≢ u) ⊎ (i ≢ j)
      → entry after u j ≡ entry before u j

pub same_cases : (t u i j : ℕ) → ((t ≡ u) × (i ≡ j)) ⊎ ((t ≢ u) ⊎ (i ≢ j))
same_cases t u i j = ground arith

module _ {own : Owner} {s : Paging} (tables : IsTables own s) {t n c i : ℕ} {after : Memory}
    (aligned : s.it % 4096 ≡ 0) (small : s.it < 2 ^ 52)
    (x : IsExtended own t n c i s.it s.mem after) where
  walk-new :
      (k u v : ℕ) → entry after u (index (suc k) v) ≡ s.it + 3 → walk after (suc k) u v ≡ unmapped
  walk-new k u v now =
      walk-table after k u v (rw now (link-present s.it aligned small))
        (rw now (link-small s.it aligned small))
      ∙ rw (now, link-frame s.it aligned small) (walk-zero after k s.it v x.empty)

  walk-same :
      (k u d v : ℕ)
      → own u ≡ some (suc k, d)
      → entry after u (index (suc k) v) ≡ entry s.mem u (index (suc k) v)
      → ((w e : ℕ) → own w ≡ some (k, e) → walk after k w v ≡ walk s.mem k w v)
      → walk after (suc k) u v ≡ walk s.mem (suc k) u v
  unfolding walk
  walk-same k u d v o same rest = ground (
    arith,
    same,
    tables.linked u k d (index (suc k) v) o (index-lt (suc k) v),
    rest (frame (entry s.mem u (index (suc k) v))) (d * 512 + index (suc k) v),
  )

  -- No translation that starts at a table changes.
  pub walk-extended : (k u d v : ℕ) → own u ≡ some (k, d) → walk after k u v ≡ walk s.mem k u v
  walk-extended zero u d v o = elim (same_cases t u i (index 0 v)) [
    | inl (e, f) ↦ absurd (ground (arith, x.owned))
    | inr ne ↦ unfold walk in rw (x.same u 0 d (index 0 v) o (index-lt 0 v) ne)
  ]
  walk-extended (suc k) u d v o = elim (same_cases t u i (index (suc k) v)) [
    | inl (e, f) ↦
        walk-new k u v (rw (← e, ← f) x.now)
        ∙ sym (walk-absent s.mem (suc k) u v (rw (← e, ← f) x.was_absent))
    | inr ne ↦
        walk-same k u d v o (x.same u (suc k) d (index (suc k) v) o (index-lt (suc k) v) ne)
          (λ w e o'. walk-extended k w e v o')
  ]

  -- The new table is owned too.
  abbrev pub extended_owner : Owner
  extended_owner a = if a == s.it then some (n, c * 512 + i) else own a

  pub extended-new : extended_owner s.it ≡ some (n, c * 512 + i)
  extended-new = ground arith

  -- A page below the new one has the owner that it had.
  pub extended-old : (a : ℕ) → a ≢ s.it → extended_owner a ≡ own a
  extended-old a ne = ground arith

  pub old_ne : (u k d : ℕ) → own u ≡ some (k, d) → u ≢ s.it
  old_ne u k d o = ground (arith, tables.placed u k d o)

  owner_cases :
      (u k d : ℕ)
      → extended_owner u ≡ some (k, d)
      → ((u ≡ s.it) × (k ≡ n) × (d ≡ c * 512 + i)) ⊎ ((u ≢ s.it) × (own u ≡ some (k, d)))
  owner_cases u k d o = ground arith

  entry_cases :
      (u k d j : ℕ)
      → extended_owner u ≡ some (suc k, d)
      → j < 512
      → (entry after u j ≡ 0)
        ⊎ ((entry after u j ≡ s.it + 3) × (k ≡ n) × (d ≡ c) × (j ≡ i))
        ⊎ ((own u ≡ some (suc k, d)) × (entry after u j ≡ entry s.mem u j))
  entry_cases u k d j o jl = elim (owner_cases u (suc k) d o) [
    | inl (e, _, _) ↦ inl (rw e (x.empty j jl))
    | inr (ne, old) ↦ elim (same_cases t u i j) [
      | inl (e, f) ↦
          inr (inl (rw (← e, ← f) x.now, ground (arith, x.owned), ground (arith, x.owned), sym f))
      | inr other ↦ inr (inr (old, x.same u (suc k) d j old jl other))
    ]
  ]

  linked-extended :
      (u k d j : ℕ)
      → extended_owner u ≡ some (suc k, d)
      → j < 512
      → present (entry after u j) ≡ true
      → huge_page (entry after u j) ≡ false
      → (extended_owner (frame (entry after u j)) ≡ some (k, d * 512 + j))
        × (get_pte_address (entry after u j) ≡ frame (entry after u j))
  linked-extended u k d j o jl p h = elim (entry_cases u k d j o jl) [
    | inl zero_entry ↦ absurd (ground (arith, present-zero))
    | inr (inl (e, ek, ed, ej)) ↦
        rw (e, ek, ed, ej, link-frame s.it aligned small, link-address s.it aligned small)
          (extended-new, refl)
    | inr (inr (old, e)) ↦
        let l = tables.linked u k d j old jl (rw (← e) p) (rw (← e) h) in
        rw e (rw (extended-old _ (old_ne _ k (d * 512 + j) l.0)) l.0, l.1)
  ]

  pub IsTables-extended : IsTables extended_owner (record s { mem = after; it = s.it + 4096 })
  IsTables-extended = record {
    root = rw (extended-old p4table (old_ne p4table 3 0 tables.root)) tables.root;
    placed = λ u k d o. ground (arith, owner_cases u k d o, tables.placed u k d);
    linked = linked-extended;
    cleared = λ u k d j o jl p.
        ground (
          arith,
          entry_cases u k d j o jl,
          link-present s.it aligned small,
          tables.cleared u k d j,
        );
    it_aligned = omega arith;
  }
