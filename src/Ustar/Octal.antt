-- ===== src/Ustar/Octal.antt =====
-- oct2bin reads back what a field of octal digits says.
use learning_osdev.Base.{
  ℕ, zero, suc, ◌+◌, ◌-◌, ◌*◌, ◌/◌, ◌%◌, ◌^◌, ◌≤◌, ◌<◌, ◌≡◌, arith, u64, ◌∙◌, ap, sym,
}
use native.Mathlib.Nat.{pow-suc, div-div-eq-div-mul, one-le-pow, div-eq_of_lt}
use learning_osdev.Str.{Bytes}
use learning_osdev.Ustar.{oct2bin_loop, oct2bin}

-- The field `str` of so many bytes holds `n` in octal, the highest digit first.
abbrev pub IsOctal : Bytes → ℕ → ℕ → Type 0
IsOctal str width n = (i : ℕ) → i < width → str i ≡ b'0' + n / 8 ^ (width - 1 - i) % 8

oct_step :
    (q c : ℕ) → q < 2 ^ 60 → c ≡ b'0' + q % 8 → u64 (u64 (q / 8 * 8) + (c + 2 ^ 64 - b'0')) ≡ q
oct_step q c small e = omega arith

div-pow-suc : (n k : ℕ) → n / 8 ^ suc k ≡ n / 8 ^ k / 8
div-pow-suc n k = ap (λ (t : ℕ). n / t) (pow-suc 8 k) ∙ sym (div-div-eq-div-mul n (8 ^ k) 8)

div-pow-le : (n k : ℕ) → n / 8 ^ k ≤ n
div-pow-le n k = grind (arith, one-le-pow k 8)

module _ (str : Bytes) (size n : ℕ) (small : n < 2 ^ 60) (digits : IsOctal str size n) where
  -- The digits before `i` are read.
  oct2bin_loop-IsOctal : (left i : ℕ) → i + left ≡ size → oct2bin_loop left i str (n / 8 ^ left) ≡ n
  unfolding oct2bin_loop
  oct2bin_loop-IsOctal zero i e = omega arith
  oct2bin_loop-IsOctal (suc left) i e =
      let at : size - 1 - i ≡ left = omega arith in
      let c = digits i (omega arith) ∙ ap (λ (t : ℕ). b'0' + n / 8 ^ t % 8) at in
      rw (div-pow-suc n left, oct_step (n / 8 ^ left) (str i) (omega (arith, div-pow-le n left)) c)
        (oct2bin_loop-IsOctal left (i + 1) (omega arith))

  -- A field of `size` octal digits with a number below 2 ^ 60 is read as that number.
  pub oct2bin_lem : n < 8 ^ size → oct2bin str size ≡ n
  unfolding oct2bin
  oct2bin_lem fits =
      ap (λ (t : ℕ). oct2bin_loop size 0 str t) (sym (div-eq_of_lt fits))
      ∙ oct2bin_loop-IsOctal size 0 (omega arith)
