-- ===== src/Paging/Walk.antt =====
-- The translation of a virtual address by the processor, as the architecture describes it: an
-- independent description for the code of paging.c to be held against.
use learning_osdev.Base.{
  ℕ, zero, suc, ◌+◌, ◌*◌, ◌/◌, ◌%◌, ◌^◌, ◌<◌, ◌≡◌, arith, Bool, true, false, if◌then◌else◌,
}
use learning_osdev.Mem.{Memory}
use learning_osdev.Paging.{present, huge_page, entry, Paging, p4table}
use learning_osdev.Paging.Entries.{frame}

-- `page k a`: a page of 4 KiB, 2 MiB or 1 GiB, for k = 0, 1 or 2, gives the physical address `a`.
-- `reserved`: the entry of level 4 has the bit set that no such entry may have.
pub data Translation : Type 0 where
  unmapped reserved : Translation
  page : ℕ → ℕ → Translation

-- The index into the table of level `n + 1`.
unfoldable pub index : ℕ → ℕ → ℕ
index n v = v / 2 ^ (12 + 9 * n) % 2 ^ 9

unfoldable pub leaf : ℕ → ℕ → ℕ → Translation
leaf zero e v = page 0 (frame e + v % 2 ^ 12)
leaf (suc zero) e v = page 1 (e / 2 ^ 21 % 2 ^ 31 * 2 ^ 21 + v % 2 ^ 21)
leaf (suc (suc zero)) e v = page 2 (e / 2 ^ 30 % 2 ^ 22 * 2 ^ 30 + v % 2 ^ 30)
leaf (suc (suc (suc n))) e v = reserved

unfoldable pub walk : Memory → ℕ → ℕ → ℕ → Translation
walk m zero t v = let e = entry m t (index 0 v) in if present e then leaf 0 e v else unmapped
walk m (suc n) t v =
    let e = entry m t (index (suc n) v) in
    let rest = walk m n (frame e) v in
    if present e then (if huge_page e then leaf (suc n) e v else rest) else unmapped

unfoldable pub translate : Paging → ℕ → Translation
translate s v = walk s.mem 3 p4table v

-- Not part of a huge page: nothing is there, or a page of 4 KiB.
abbrev pub is_small : Translation → Bool
is_small unmapped = true
is_small reserved = false
is_small (page zero a) = true
is_small (page (suc k) a) = false

pub index-lt : (n v : ℕ) → index n v < 512
unfolding index
index-lt n v = omega arith

module _ (m : Memory) (n t v : ℕ) where
  pub walk-absent : present (entry m t (index n v)) ≡ false → walk m n t v ≡ unmapped
  walk-absent = go n
    where
      go : (k : ℕ) → present (entry m t (index k v)) ≡ false → walk m k t v ≡ unmapped
      go zero h = unfold walk in rw h
      go (suc k) h = unfold walk in rw h

  pub walk-table :
      present (entry m t (index (suc n) v)) ≡ true
      → huge_page (entry m t (index (suc n) v)) ≡ false
      → walk m (suc n) t v ≡ walk m n (frame (entry m t (index (suc n) v))) v
  unfolding walk
  walk-table p h = rw (p, h)

  pub walk-huge :
      present (entry m t (index (suc n) v)) ≡ true
      → huge_page (entry m t (index (suc n) v)) ≡ true
      → walk m (suc n) t v ≡ leaf (suc n) (entry m t (index (suc n) v)) v
  unfolding walk
  walk-huge p h = rw (p, h)

  -- On the way to a small page no entry is huge.
  pub small-not_huge :
      is_small (walk m (suc n) t v) ≡ true
      → present (entry m t (index (suc n) v)) ≡ true
      → huge_page (entry m t (index (suc n) v)) ≡ false
  small-not_huge = go n
    where
      go :
          (k : ℕ)
          → is_small (walk m (suc k) t v) ≡ true
          → present (entry m t (index (suc k) v)) ≡ true
          → huge_page (entry m t (index (suc k) v)) ≡ false
      go zero h p = unfold walk leaf in ground arith
      go (suc zero) h p = unfold walk leaf in ground arith
      go (suc (suc k)) h p = unfold walk leaf in ground arith
