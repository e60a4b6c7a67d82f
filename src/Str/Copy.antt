-- ===== src/Str/Copy.antt =====
-- strncpy of mem.c.
use learning_osdev.Base.{
  ℕ, zero, suc, ◌+◌, ◌≤◌, ◌<◌, ◌≡◌, ◌≢◌, ◌⊎◌, inl, inr, refl, arith, Bool-cases, ◌==◌,
}
use learning_osdev.Str.{Bytes, put, strncpy_loop, strncpy}

-- `result` is the length `n` of the text of `src` from offset `i` on, cut off at `limit`, and the
-- buffer with these bytes, and no others, copied.
pub record IsCopied (i limit at : ℕ) (src buf : Bytes) (result : ℕ × Bytes) : Type 0 where
  pub above : i ≤ result.0
  pub below : result.0 ≤ limit
  pub nonzero : (k : ℕ) → i ≤ k → k < result.0 → src k ≢ 0
  pub stops : (result.0 ≡ limit) ⊎ (src result.0 ≡ 0)
  pub copied : (k : ℕ) → i ≤ k → k < result.0 → result.1 (at + k) ≡ src k
  pub outside : (j : ℕ) → (j < at + i) ⊎ (at + result.0 ≤ j) → result.1 j ≡ buf j

module _ (at : ℕ) (src : Bytes) where
  IsCopied-step :
      {i limit : ℕ} {buf : Bytes} {result : ℕ × Bytes}
      → src i ≢ 0
      → IsCopied (i + 1) limit at src (put buf (at + i) (src i)) result
      → IsCopied i limit at src buf result
  IsCopied-step {i} ne r = record {
    above = omega (arith, r.above);
    below = r.below;
    nonzero = λ k lo hi. elim (Bool-cases (k == i)) [
      | inl here ↦ λ z. ground arith
      | inr after ↦ r.nonzero k (ground arith) hi
    ];
    stops = r.stops;
    copied = λ k lo hi. elim (Bool-cases (k == i)) [
      | inl here ↦ ground (arith, r.outside (at + k))
      | inr after ↦ r.copied k (ground arith) hi
    ];
    outside = λ j h. ground (arith, r.above, r.outside j);
  }

  strncpy_loop-IsCopied :
      (left i limit : ℕ) (buf : Bytes)
      → i + left ≡ limit
      → IsCopied i limit at src buf (strncpy_loop left i at src buf)
  unfolding strncpy_loop
  strncpy_loop-IsCopied zero i limit buf l = record {
    above = omega arith;
    below = omega arith;
    nonzero = λ k lo hi. absurd (omega arith);
    stops = inl (omega arith);
    copied = λ k lo hi. absurd (omega arith);
    outside = λ j h. refl;
  }
  strncpy_loop-IsCopied (suc left) i limit buf l = elim (Bool-cases (src i == 0)) [
    | inl end ↦ rw end (record {
      above = omega arith;
      below = omega arith;
      nonzero = λ k lo hi. absurd (omega arith);
      stops = inr (ground arith);
      copied = λ k lo hi. absurd (omega arith);
      outside = λ j h. refl;
    })
    | inr more ↦ rw more (
        IsCopied-step (λ z. ground arith)
          (strncpy_loop-IsCopied left (i + 1) limit (put buf (at + i) (src i)) (omega arith)))
  ]

  -- strncpy returns the length of the text at `src`, or `sz` if that is less, copies that many
  -- bytes to the offset `at` of the buffer, and changes no other byte: it writes no NUL byte.
  pub strncpy_lem : (sz : ℕ) (buf : Bytes) → IsCopied 0 sz at src buf (strncpy at src sz buf)
  unfolding strncpy
  strncpy_lem sz buf = strncpy_loop-IsCopied sz 0 sz buf (omega arith)
