-- ===== src/Base/Bits.antt =====
-- `|` of numbers without a common bit is their sum.
use Prim.Native.Nat.{
  ℕ, zero, suc, ◌+◌, ◌*◌, ◌/◌, ◌%◌, ◌^◌, ◌≤◌, ◌<◌, bit_or, max, digits, bit_or-bitwise,
}
use mathlib.Core.Path.{◌≡◌, ap}
use native.Mathlib.Omega.{arith}
use native.Mathlib.Nat.{pow-suc}

twice : (h k : ℕ) → h * 2 ^ suc k ≡ 2 * (h * 2 ^ k)
twice h k = omega (arith, ap (λ (t : ℕ). h * t) (pow-suc 2 k))

max-zero : (x : ℕ) → max x 0 ≡ x
max-zero x = omega arith

digits-sum :
    (fuel k h a : ℕ) → a ≤ fuel → a < 2 ^ k → digits (λ b. b) max fuel a (h * 2 ^ k) ≡ h * 2 ^ k + a
digits-sum zero k h a le lt = let none_left : a ≡ 0 = omega arith in rw none_left (omega arith)
digits-sum (suc n) k h zero le lt = omega arith
digits-sum (suc n) zero h (suc a) le lt = absurd (omega arith)
digits-sum (suc n) (suc k) h (suc a) le lt =
    let half : h * 2 ^ suc k / 2 ≡ h * 2 ^ k = omega (arith, twice h k) in
    let even : h * 2 ^ suc k % 2 ≡ 0 = omega (arith, twice h k) in
    let rest = digits-sum n k h (suc a / 2) (omega arith) (omega (arith, pow-suc 2 k)) in
    rw (half, even, rest, max-zero (suc a % 2)) (omega (arith, twice h k))

pub bit_or-sum : (k h a : ℕ) → a < 2 ^ k → bit_or a (h * 2 ^ k) ≡ h * 2 ^ k + a
bit_or-sum k h a lt = simp bit_or-bitwise (digits-sum a k h a (omega arith) lt)
