-- ===== src/Paging/SamePage.antt =====
-- Addresses of one page are translated alike, up to the offset into the page.
use learning_osdev.Base.{ℕ, zero, suc, ◌+◌, ◌/◌, ◌%◌, ◌^◌, ◌≤◌, ◌≡◌, ◌≢◌, ◌⊎◌, inl, inr, arith}
use learning_osdev.Mem.{Memory}
use learning_osdev.Paging.{entry}
use learning_osdev.Paging.Entries.{frame}
use learning_osdev.Paging.Walk.{index, walk, leaf, page}

-- The indices from level `k + 1` up are the same.
abbrev pub SameIndices : ℕ → ℕ → ℕ → Type 0
SameIndices k v w = (n : ℕ) → k ≤ n → n ≤ 3 → index n w ≡ index n v

level_cases : (n : ℕ) → n ≤ 3 → (n ≡ 0) ⊎ (n ≡ 1) ⊎ (n ≡ 2) ⊎ (n ≡ 3)
level_cases n h = ground arith

pub same_4kb : (v w : ℕ) → w / 2 ^ 12 % 2 ^ 36 ≡ v / 2 ^ 12 % 2 ^ 36 → SameIndices 0 v w
unfolding index
same_4kb v w h n lo hi = elim (level_cases n hi) [
  | inl e ↦ rw e (omega arith)
  | inr (inl e) ↦ rw e (omega arith)
  | inr (inr (inl e)) ↦ rw e (omega arith)
  | inr (inr (inr e)) ↦ rw e (omega arith)
]

pub same_2mb : (v w : ℕ) → w / 2 ^ 21 % 2 ^ 27 ≡ v / 2 ^ 21 % 2 ^ 27 → SameIndices 1 v w
unfolding index
same_2mb v w h n lo hi = elim (level_cases n hi) [
  | inl e ↦ absurd (omega arith)
  | inr (inl e) ↦ rw e (omega arith)
  | inr (inr (inl e)) ↦ rw e (omega arith)
  | inr (inr (inr e)) ↦ rw e (omega arith)
]

leaf_big : (n e v a : ℕ) → leaf (suc n) e v ≢ page 0 a
unfolding leaf
leaf_big zero e v a h = ground arith
leaf_big (suc zero) e v a h = ground arith
leaf_big (suc (suc n)) e v a h = ground arith

leaf_huge : (n e v a : ℕ) → leaf (suc (suc n)) e v ≢ page 1 a
unfolding leaf
leaf_huge zero e v a h = ground arith
leaf_huge (suc n) e v a h = ground arith

module _ (m : Memory) (f v w : ℕ) where
  pub walk-same_4kb :
      (n t : ℕ)
      → n ≤ 3
      → SameIndices 0 v w
      → walk m n t v ≡ page 0 (f + v % 2 ^ 12)
      → walk m n t w ≡ page 0 (f + w % 2 ^ 12)
  unfolding walk
  walk-same_4kb zero t le same h =
      unfold leaf in rw (same 0 (omega arith) (omega arith)) (ground arith)
  walk-same_4kb (suc n) t le same h = rw (same (suc n) (omega arith) le) (
      ground (
        arith,
        leaf_big n (entry m t (index (suc n) v)) v (f + v % 2 ^ 12),
        walk-same_4kb n (frame (entry m t (index (suc n) v))) (omega arith) same,
      ))

  pub walk-same_2mb :
      (n t : ℕ)
      → n ≤ 3
      → SameIndices 1 v w
      → walk m n t v ≡ page 1 (f + v % 2 ^ 21)
      → walk m n t w ≡ page 1 (f + w % 2 ^ 21)
  unfolding walk
  walk-same_2mb zero t le same h = unfold leaf in absurd (ground arith)
  walk-same_2mb (suc zero) t le same h = rw (same 1 (omega arith) le) (unfold leaf in ground arith)
  walk-same_2mb (suc (suc n)) t le same h = rw (same (suc (suc n)) (omega arith) le) (
      ground (
        arith,
        leaf_huge n (entry m t (index (suc (suc n)) v)) v (f + v % 2 ^ 21),
        walk-same_2mb (suc n) (frame (entry m t (index (suc (suc n)) v))) (omega arith) same,
      ))
