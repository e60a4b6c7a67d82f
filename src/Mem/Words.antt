-- ===== src/Mem/Words.antt =====
-- Laws of byte and 64-bit accesses to the memory of mem.c.
use learning_osdev.Base.{ℕ, ◌+◌, ◌/◌, ◌%◌, ◌^◌, ◌≤◌, ◌<◌, ◌≡◌, ◌⊎◌, arith}
use learning_osdev.Mem.{Memory, store8, load64, store64}

-- Every cell holds a byte.
abbrev pub IsBytes : Memory → Type 0
IsBytes m = (a : ℕ) → m a < 2 ^ 8

pub store64-ne : (m : Memory) (p v a : ℕ) → (a < p) ⊎ (p + 8 ≤ a) → store64 m p v a ≡ m a
unfolding store64
store64-ne m p v a h = ground arith

module _ (m : Memory) (p v : ℕ) where
  pub store64-at0 : store64 m p v p ≡ v % 2 ^ 8
  unfolding store64
  store64-at0 = ground arith

  pub store64-at1 : store64 m p v (p + 1) ≡ v / 2 ^ 8 % 2 ^ 8
  unfolding store64
  store64-at1 = ground arith

  pub store64-at2 : store64 m p v (p + 2) ≡ v / 2 ^ 16 % 2 ^ 8
  unfolding store64
  store64-at2 = ground arith

  pub store64-at3 : store64 m p v (p + 3) ≡ v / 2 ^ 24 % 2 ^ 8
  unfolding store64
  store64-at3 = ground arith

  pub store64-at4 : store64 m p v (p + 4) ≡ v / 2 ^ 32 % 2 ^ 8
  unfolding store64
  store64-at4 = ground arith

  pub store64-at5 : store64 m p v (p + 5) ≡ v / 2 ^ 40 % 2 ^ 8
  unfolding store64
  store64-at5 = ground arith

  pub store64-at6 : store64 m p v (p + 6) ≡ v / 2 ^ 48 % 2 ^ 8
  unfolding store64
  store64-at6 = ground arith

  pub store64-at7 : store64 m p v (p + 7) ≡ v / 2 ^ 56 % 2 ^ 8
  unfolding store64
  store64-at7 = ground arith

  -- A word that is stored is the word that is loaded.
  pub load64-store64 : v < 2 ^ 64 → load64 (store64 m p v) p ≡ v
  unfolding load64
  load64-store64 small = omega (
    arith, store64-at0, store64-at1, store64-at2, store64-at3, store64-at4, store64-at5,
    store64-at6, store64-at7,
  )

-- Loads see only their eight bytes.
pub load64-cong :
    (m n : Memory) (p : ℕ) → ((a : ℕ) → p ≤ a → a < p + 8 → m a ≡ n a) → load64 m p ≡ load64 n p
unfolding load64
load64-cong m n p h = omega (
  arith,
  h p (omega arith) (omega arith),
  h (p + 1) (omega arith) (omega arith),
  h (p + 2) (omega arith) (omega arith),
  h (p + 3) (omega arith) (omega arith),
  h (p + 4) (omega arith) (omega arith),
  h (p + 5) (omega arith) (omega arith),
  h (p + 6) (omega arith) (omega arith),
  h (p + 7) (omega arith) (omega arith),
)

-- A store leaves the words alone that it does not overlap.
pub load64-store64_ne :
    (m : Memory) (p q v : ℕ) → (q + 8 ≤ p) ⊎ (p + 8 ≤ q) → load64 (store64 m p v) q ≡ load64 m q
load64-store64_ne m p q v h =
    load64-cong (store64 m p v) m q (λ a lo hi. store64-ne m p v a (omega arith))

pub load64-lt : (m : Memory) (p : ℕ) → IsBytes m → load64 m p < 2 ^ 64
unfolding load64
load64-lt m p b =
    omega (arith, b p, b (p + 1), b (p + 2), b (p + 3), b (p + 4), b (p + 5), b (p + 6), b (p + 7))

-- A word whose eight bytes are 0.
pub load64-zero : (m : Memory) (p : ℕ) → ((a : ℕ) → p ≤ a → a < p + 8 → m a ≡ 0) → load64 m p ≡ 0
unfolding load64
load64-zero m p h = omega (
  arith,
  h p (omega arith) (omega arith),
  h (p + 1) (omega arith) (omega arith),
  h (p + 2) (omega arith) (omega arith),
  h (p + 3) (omega arith) (omega arith),
  h (p + 4) (omega arith) (omega arith),
  h (p + 5) (omega arith) (omega arith),
  h (p + 6) (omega arith) (omega arith),
  h (p + 7) (omega arith) (omega arith),
)

pub store8-IsBytes : {m : Memory} (p v : ℕ) → IsBytes m → IsBytes (store8 m p v)
unfolding store8
store8-IsBytes p v b a = ground (arith, b a)

pub store64-IsBytes : {m : Memory} (p v : ℕ) → IsBytes m → IsBytes (store64 m p v)
unfolding store64
store64-IsBytes p v b a = ground (arith, b a)
