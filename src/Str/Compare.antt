-- ===== src/Str/Compare.antt =====
-- memcmp and strncmp of mem.c decide equality of bytes and of texts.
use learning_osdev.Base.{
  ℕ, zero, suc, ◌+◌, ◌^◌, ◌≤◌, ◌<◌, ◌≡◌, ◌≢◌, ◌↔◌, inl, inr, refl, arith, Bool-cases, ◌==◌, true,
  false,
}
use learning_osdev.Str.{Bytes, memcmp_loop, memcmp, strncmp_loop, strncmp}

memcmp_loop-eq :
    (left i : ℕ) (a b : Bytes)
    → memcmp_loop left i a b ≡ 0
    → (j : ℕ) → i ≤ j
    → j < i + left
    → a j ≡ b j
unfolding memcmp_loop
memcmp_loop-eq zero i a b h j lo hi = absurd (omega arith)
memcmp_loop-eq (suc left) i a b h j lo hi = elim (Bool-cases (a i == b i)) [
  | inl e ↦ elim (Bool-cases (i == j)) [
    | inl same ↦ ground arith
    | inr other ↦ memcmp_loop-eq left (i + 1) a b (rw e at h) j (ground arith) (omega arith)
  ]
  | inr ne ↦ absurd (ground arith)
]

memcmp_loop-zero :
    (left i : ℕ) (a b : Bytes)
    → ((j : ℕ) → i ≤ j → j < i + left → a j ≡ b j)
    → memcmp_loop left i a b ≡ 0
unfolding memcmp_loop
memcmp_loop-zero zero i a b h = refl
memcmp_loop-zero (suc left) i a b h =
    let e : (a i == b i) ≡ true = ground (arith, h i) in
    rw e (memcmp_loop-zero left (i + 1) a b (λ j lo hi. h j (omega arith) (omega arith)))

memcmp_loop-bit : (left i : ℕ) (a b : Bytes) → memcmp_loop left i a b ≤ 1
unfolding memcmp_loop
memcmp_loop-bit zero i a b = omega arith
memcmp_loop-bit (suc left) i a b = ground (arith, memcmp_loop-bit left (i + 1) a b)

-- memcmp returns 0 or 1, and 0 exactly when the `size` bytes at both pointers are the same.
pub memcmp_lem :
    (a b : Bytes) (size : ℕ)
    → ((memcmp a b size ≡ 0) ↔ ((j : ℕ) → j < size → a j ≡ b j)) × (memcmp a b size ≤ 1)
unfolding memcmp
memcmp_lem a b size = (
  (
    λ h j lt. memcmp_loop-eq size 0 a b h j (omega arith) (omega arith),
    λ h. memcmp_loop-zero size 0 a b (λ j lo hi. h j (omega arith)),
  ),
  memcmp_loop-bit size 0 a b,
)

-- The two texts are the same up to the first NUL byte or the limit.
abbrev pub SameText : Bytes → Bytes → ℕ → ℕ → Type 0
SameText a b i limit = (j : ℕ) → i ≤ j → j < limit → ((k : ℕ) → i ≤ k → k < j → a k ≢ 0) → a j ≡ b j

abbrev pub IsBytes : Bytes → Type 0
IsBytes a = (i : ℕ) → a i < 2 ^ 8

module _ (a b : Bytes) (a_bytes : IsBytes a) (b_bytes : IsBytes b) where
  strncmp_loop-eq :
      (size i limit : ℕ) → i + size ≡ limit → strncmp_loop size i a b ≡ 0 → SameText a b i limit
  unfolding strncmp_loop
  strncmp_loop-eq zero i limit l h j lo hi before = absurd (omega arith)
  strncmp_loop-eq (suc size) i limit l h j lo hi before = elim (Bool-cases (i == j)) [
    | inl same ↦ ground (arith, a_bytes i, b_bytes i)
    | inr other ↦
        strncmp_loop-eq size (i + 1) limit (omega arith)
          (ground (arith, before i (omega arith) (ground arith), a_bytes i, b_bytes i)) j
          (ground arith) hi (λ k lo' hi'. before k (omega arith) hi')
  ]

  strncmp_loop-zero :
      (size i limit : ℕ) → i + size ≡ limit → SameText a b i limit → strncmp_loop size i a b ≡ 0
  unfolding strncmp_loop
  strncmp_loop-zero zero i limit l h = refl
  strncmp_loop-zero (suc size) i limit l h =
      let e = h i (omega arith) (omega arith) (λ k lo hi. absurd (omega arith)) in
      elim (Bool-cases (a i == 0)) [
        | inl end ↦ ground (arith, e, a_bytes i)
        | inr more ↦
            let rest = strncmp_loop-zero size (i + 1) limit (omega arith) (later more) in
            ground (arith, e, rest)
      ]
    where
      later : (a i == 0) ≡ false → SameText a b (i + 1) limit
      later more j lo hi before = h j (omega arith) hi (λ k lo' hi'. elim (Bool-cases (k == i)) [
        | inl here ↦ λ z. ground arith
        | inr after ↦ before k (ground arith) hi'
      ])

  -- strncmp returns 0 exactly when the two texts of bytes are the same up to the first NUL byte,
  -- or in their first `size` bytes if that comes first.
  pub strncmp_lem : (size : ℕ) → (strncmp a b size ≡ 0) ↔ SameText a b 0 size
  unfolding strncmp
  strncmp_lem size =
      (strncmp_loop-eq size 0 size (omega arith), strncmp_loop-zero size 0 size (omega arith))
