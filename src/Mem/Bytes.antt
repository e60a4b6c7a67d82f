-- ===== src/Mem/Bytes.antt =====
-- The bytes of a word that is loaded from the memory of mem.c, and a word that is copied.
use learning_osdev.Base.{ℕ, ◌+◌, ◌/◌, ◌%◌, ◌^◌, ◌≤◌, ◌<◌, ◌≡◌, ◌⊎◌, arith}
use learning_osdev.Mem.{Memory, load64, store64}
use learning_osdev.Mem.Words.{
  IsBytes, store64-at0, store64-at1, store64-at2, store64-at3, store64-at4, store64-at5,
  store64-at6, store64-at7,
}

-- The bytes of a word that is loaded.
module _ (m : Memory) (q : ℕ) (bytes : IsBytes m) where
  load64-byte0 : load64 m q % 2 ^ 8 ≡ m q
  unfolding load64
  load64-byte0 = omega (arith, bytes q)

  load64-byte1 : load64 m q / 2 ^ 8 % 2 ^ 8 ≡ m (q + 1)
  unfolding load64
  load64-byte1 = omega (arith, bytes q, bytes (q + 1))

  load64-byte2 : load64 m q / 2 ^ 16 % 2 ^ 8 ≡ m (q + 2)
  unfolding load64
  load64-byte2 = omega (arith, bytes q, bytes (q + 1), bytes (q + 2))

  load64-byte3 : load64 m q / 2 ^ 24 % 2 ^ 8 ≡ m (q + 3)
  unfolding load64
  load64-byte3 = omega (arith, bytes q, bytes (q + 1), bytes (q + 2), bytes (q + 3))

  load64-byte4 : load64 m q / 2 ^ 32 % 2 ^ 8 ≡ m (q + 4)
  unfolding load64
  load64-byte4 = omega (arith, bytes q, bytes (q + 1), bytes (q + 2), bytes (q + 3), bytes (q + 4))

  load64-byte5 : load64 m q / 2 ^ 40 % 2 ^ 8 ≡ m (q + 5)
  unfolding load64
  load64-byte5 =
      omega
        (arith, bytes q, bytes (q + 1), bytes (q + 2), bytes (q + 3), bytes (q + 4), bytes (q + 5))

  load64-byte6 : load64 m q / 2 ^ 48 % 2 ^ 8 ≡ m (q + 6)
  unfolding load64
  load64-byte6 = omega (
    arith,
    bytes q,
    bytes (q + 1),
    bytes (q + 2),
    bytes (q + 3),
    bytes (q + 4),
    bytes (q + 5),
    bytes (q + 6),
  )

  load64-byte7 : load64 m q / 2 ^ 56 % 2 ^ 8 ≡ m (q + 7)
  unfolding load64
  load64-byte7 = omega (
    arith,
    bytes q,
    bytes (q + 1),
    bytes (q + 2),
    bytes (q + 3),
    bytes (q + 4),
    bytes (q + 5),
    bytes (q + 6),
    bytes (q + 7),
  )

offset_cases :
    (p a : ℕ)
    → p ≤ a
    → a < p + 8
    → (a ≡ p)
      ⊎ (a ≡ p + 1)
      ⊎ (a ≡ p + 2)
      ⊎ (a ≡ p + 3)
      ⊎ (a ≡ p + 4)
      ⊎ (a ≡ p + 5)
      ⊎ (a ≡ p + 6)
      ⊎ (a ≡ p + 7)
offset_cases p a lo hi = ground arith

-- A word that is copied is eight bytes that are copied.
pub store64-load64 :
    (m : Memory) (p q a b : ℕ)
    → IsBytes m
    → p ≤ a
    → a < p + 8
    → a + q ≡ b + p
    → store64 m p (load64 m q) a ≡ m b
store64-load64 m p q a b bytes lo hi e = ground (
  arith,
  offset_cases p a lo hi,
  load64-byte0 m q bytes,
  store64-at0 m p (load64 m q),
  load64-byte1 m q bytes,
  store64-at1 m p (load64 m q),
  load64-byte2 m q bytes,
  store64-at2 m p (load64 m q),
  load64-byte3 m q bytes,
  store64-at3 m p (load64 m q),
  load64-byte4 m q bytes,
  store64-at4 m p (load64 m q),
  load64-byte5 m q bytes,
  store64-at5 m p (load64 m q),
  load64-byte6 m q bytes,
  store64-at6 m p (load64 m q),
  load64-byte7 m q bytes,
  store64-at7 m p (load64 m q),
)
