-- ===== src/Paging/Leaf.antt =====
-- Page tables in which one entry is set to map a page: they stay well-formed, and no translation
-- changes but those that pass through the entry.
use learning_osdev.Base.{
  ℕ, zero, suc, ◌+◌, ◌*◌, ◌/◌, ◌%◌, ◌^◌, ◌≤◌, ◌<◌, ◌≡◌, ◌≢◌, ◌⊎◌, inl, inr, refl, arith, true, some,
  Bool-cases, if◌then◌else◌, ◌==◌,
}
use learning_osdev.Mem.{Memory}
use learning_osdev.Paging.{present, huge_page, entry, Paging}
use learning_osdev.Paging.Entries.{frame}
use learning_osdev.Paging.Walk.{index, walk, index-lt}
use learning_osdev.Paging.Invariant.{Owner, IsTables}
use learning_osdev.Paging.Extend.{same_cases}

-- The part of the virtual address that names the entry of level `k + 1` that a walk uses, for a
-- walk of `v` from a table of level `n + 1` that `d` leads to.
unfoldable pub trace : ℕ → ℕ → ℕ → ℕ → ℕ
trace k zero v d = d * 512 + index 0 v
trace k (suc n) v d =
    let rest = trace k n v (d * 512 + index (suc n) v) in
    if k == suc n then d * 512 + index (suc n) v else rest

pub trace_4kb : (v : ℕ) → trace 0 3 v 0 ≡ v / 2 ^ 12 % 2 ^ 36
unfolding trace index
trace_4kb v = omega arith

pub trace_2mb : (v : ℕ) → trace 1 3 v 0 ≡ v / 2 ^ 21 % 2 ^ 27
unfolding trace index
trace_2mb v = omega arith

pub trace_here0 : (v d : ℕ) → trace 0 0 v d ≡ d * 512 + index 0 v
unfolding trace
trace_here0 v d = refl

pub trace_here1 : (v d : ℕ) → trace 1 1 v d ≡ d * 512 + index 1 v
unfolding trace
trace_here1 v d = refl

-- The memory `after` is `before` but for entry `i` of the table `t` of level `k + 1`, which maps a
-- page.
pub record IsLeafSet (own : Owner) (t k c i : ℕ) (before after : Memory) : Type 0 where
  pub owned : own t ≡ some (k, c)
  pub is_present : present (entry after t i) ≡ true
  pub is_leaf : (k ≡ 0) ⊎ (huge_page (entry after t i) ≡ true)
  pub same :
      (u n d j : ℕ)
      → own u ≡ some (n, d)
      → j < 512
      → (t ≢ u) ⊎ (i ≢ j)
      → entry after u j ≡ entry before u j

module _ {own : Owner} {s : Paging} (tables : IsTables own s) {t k c i : ℕ} {after : Memory}
    (x : IsLeafSet own t k c i s.mem after) where
  walk-same :
      (n u d v : ℕ)
      → own u ≡ some (suc n, d)
      → entry after u (index (suc n) v) ≡ entry s.mem u (index (suc n) v)
      → ((w : ℕ)
          → own w ≡ some (n, d * 512 + index (suc n) v)
          → walk after n w v ≡ walk s.mem n w v)
      → walk after (suc n) u v ≡ walk s.mem (suc n) u v
  unfolding walk
  walk-same n u d v o same rest = ground (
    arith,
    same,
    tables.linked u n d (index (suc n) v) o (index-lt (suc n) v),
    rest (frame (entry s.mem u (index (suc n) v))),
  )

  -- A walk that starts below the level of the entry.
  walk-below : (n u d v : ℕ) → own u ≡ some (n, d) → n < k → walk after n u v ≡ walk s.mem n u v
  walk-below zero u d v o lt = elim (same_cases t u i (index 0 v)) [
    | inl (e, f) ↦ absurd (ground (arith, x.owned))
    | inr ne ↦ unfold walk in rw (x.same u 0 d (index 0 v) o (index-lt 0 v) ne)
  ]
  walk-below (suc n) u d v o lt = elim (same_cases t u i (index (suc n) v)) [
    | inl (e, f) ↦ absurd (ground (arith, x.owned))
    | inr ne ↦
        walk-same n u d v o (x.same u (suc n) d (index (suc n) v) o (index-lt (suc n) v) ne)
          (λ w o'. walk-below n w (d * 512 + index (suc n) v) v o' (omega arith))
  ]

  -- A walk that does not pass through the entry.
  pub walk-other :
      (n u d v : ℕ)
      → own u ≡ some (n, d)
      → k ≤ n
      → trace k n v d ≢ c * 512 + i
      → walk after n u v ≡ walk s.mem n u v
  unfolding trace
  walk-other zero u d v o le ne = elim (same_cases t u i (index 0 v)) [
    | inl (e, f) ↦ absurd (ground (arith, x.owned))
    | inr other ↦ unfold walk in rw (x.same u 0 d (index 0 v) o (index-lt 0 v) other)
  ]
  walk-other (suc n) u d v o le ne = elim (same_cases t u i (index (suc n) v)) [
    | inl (e, f) ↦ absurd (ground (arith, x.owned))
    | inr other ↦
        walk-same n u d v o (x.same u (suc n) d (index (suc n) v) o (index-lt (suc n) v) other)
          (λ w o'. elim (Bool-cases (k == suc n)) [
            | inl here ↦ walk-below n w (d * 512 + index (suc n) v) v o' (ground arith)
            | inr lower ↦
                walk-other n w (d * 512 + index (suc n) v) v o' (ground arith) (rw lower at ne)
          ])
  ]

  -- The tables stay well-formed.
  pub IsTables-leaf : IsTables own (record s { mem = after })
  IsTables-leaf = record {
    root = tables.root;
    placed = tables.placed;
    linked = λ u n d j o jl p h. elim (same_cases t u i j) [
      | inl (e, f) ↦ absurd (ground (arith, x.owned, x.is_leaf))
      | inr ne ↦
          let q = x.same u (suc n) d j o jl ne in
          rw q (tables.linked u n d j o jl (rw (← q) p) (rw (← q) h))
    ];
    cleared = λ u n d j o jl p. elim (same_cases t u i j) [
      | inl (e, f) ↦ absurd (ground (arith, x.is_present))
      | inr ne ↦
          let q = x.same u (suc n) d j o jl ne in rw q (tables.cleared u n d j o jl (rw (← q) p))
    ];
    it_aligned = tables.it_aligned;
  }
