-- ===== src/Paging/Entries.antt =====
-- The entries of page tables in memory, and the values that paging.c stores in them.
use learning_osdev.Base.{
  ℕ, ◌+◌, ◌*◌, ◌/◌, ◌%◌, ◌^◌, ◌≤◌, ◌<◌, ◌≡◌, ◌≢◌, ◌⊎◌, inl, inr, refl, arith, true, false,
}
use mathlib.Core.Path.{fun_ext}
use learning_osdev.Mem.{Memory, store64}
use learning_osdev.Mem.Words.{store64-ne, load64-store64, load64-store64_ne}
use learning_osdev.Paging.{
  present, huge_page, set_present, set_writable, set_huge_page, set_pte_address, get_pte_address,
  set_huge_page, entry,
}

-- The physical address in an entry, as the processor reads it: bits 12 to 51.
unfoldable pub frame : ℕ → ℕ
frame raw = raw / 2 ^ 12 % 2 ^ 40 * 2 ^ 12

pub present-zero : present 0 ≡ false
unfolding present
present-zero = refl

pub huge_page-zero : huge_page 0 ≡ false
unfolding huge_page
huge_page-zero = refl

module _ (new : ℕ) (aligned : new % 4096 ≡ 0) (small : new < 2 ^ 52) where
  pub set_pte_address-zero : set_pte_address 0 new ≡ new
  unfolding set_pte_address
  set_pte_address-zero = omega arith

  pub set_present-new : set_present new ≡ new + 1
  unfolding set_present
  set_present-new = omega arith

  pub set_writable-new : set_writable (new + 1) ≡ new + 3
  unfolding set_writable
  set_writable-new = omega arith

  pub link-present : present (new + 3) ≡ true
  unfolding present
  link-present = ground arith

  pub link-small : huge_page (new + 3) ≡ false
  unfolding huge_page
  link-small = ground arith

  pub link-frame : frame (new + 3) ≡ new
  unfolding frame
  link-frame = omega arith

  pub link-address : get_pte_address (new + 3) ≡ new
  unfolding get_pte_address
  link-address = omega arith

module _ (new : ℕ) (aligned : new % 2 ^ 21 ≡ 0) where
  pub set_huge_page-new : set_huge_page (new + 3) ≡ new + 131
  unfolding set_huge_page
  set_huge_page-new = omega arith

  pub huge-present : present (new + 131) ≡ true
  unfolding present
  huge-present = ground arith

  pub huge-huge_page : huge_page (new + 131) ≡ true
  unfolding huge_page
  huge-huge_page = ground arith

  pub huge-frame : new < 2 ^ 52 → (new + 131) / 2 ^ 21 % 2 ^ 31 * 2 ^ 21 ≡ new
  huge-frame low = omega arith

-- Inside its word a store hides what was there.
store64-inside : (m n : Memory) (p v a : ℕ) → p ≤ a → a < p + 8 → store64 m p v a ≡ store64 n p v a
unfolding store64
store64-inside m n p v a lo hi = ground arith

range_cases : (p a : ℕ) → ((p ≤ a) × (a < p + 8)) ⊎ ((a < p) ⊎ (p + 8 ≤ a))
range_cases p a = ground arith

pub store64-store64 : (m : Memory) (p v w : ℕ) → store64 (store64 m p v) p w ≡ store64 m p w
store64-store64 m p v w = fun_ext λ a. elim (range_cases p a) [
  | inl (lo, hi) ↦ store64-inside (store64 m p v) m p w a lo hi
  | inr out ↦
      rw (store64-ne (store64 m p v) p w a out, store64-ne m p v a out, store64-ne m p w a out)
]

pub entry-store64 : (m : Memory) (t i v : ℕ) → v < 2 ^ 64 → entry (store64 m (t + 8 * i) v) t i ≡ v
unfolding entry
entry-store64 m t i v small = load64-store64 m (t + 8 * i) v small

-- Entries of tables at page boundaries do not overlap.
pub entry-store64_ne :
    (m : Memory) (t i v u j : ℕ)
    → t % 4096 ≡ 0
    → u % 4096 ≡ 0
    → i < 512
    → j < 512
    → (t ≢ u) ⊎ (i ≢ j)
    → entry (store64 m (t + 8 * i) v) u j ≡ entry m u j
unfolding entry
entry-store64_ne m t i v u j at au il jl (inl ne) =
    load64-store64_ne m (t + 8 * i) (u + 8 * j) v (omega arith)
entry-store64_ne m t i v u j at au il jl (inr ne) =
    load64-store64_ne m (t + 8 * i) (u + 8 * j) v (omega arith)
