-- ===== src/Str/Text.antt =====
-- Texts of bytes other than NUL, as lists and as bytes that a pointer leads to.
use learning_osdev.Base.{
  ℕ, zero, suc, ◌+◌, ◌^◌, ◌≤◌, ◌<◌, ◌≡◌, ◌≢◌, refl, arith, List, [], ◌∷◌, ◌++◌, length, ap₂, sym,
}
use learning_osdev.Str.{text}
use learning_osdev.Str.Compare.{SameText, IsBytes}

abbrev pub IsText : List ℕ → Type 0
IsText [] = Unit {0}
IsText (c ∷ cs) = (c ≢ 0) × (c < 2 ^ 8) × IsText cs

pub text-nonzero : (xs : List ℕ) (i : ℕ) → IsText xs → i < length xs → text xs i ≢ 0
unfolding text
text-nonzero [] i h lt = absurd (omega arith)
text-nonzero (x ∷ xs) zero h lt = h.0
text-nonzero (x ∷ xs) (suc i) h lt = text-nonzero xs i h.2 (omega arith)

pub text-IsBytes : (xs : List ℕ) → IsText xs → IsBytes (text xs)
unfolding text
text-IsBytes [] h i = omega arith
text-IsBytes (x ∷ xs) h zero = h.1
text-IsBytes (x ∷ xs) h (suc i) = text-IsBytes xs h.2 i

pub IsText-append : (xs ys : List ℕ) → IsText xs → IsText ys → IsText (xs ++ ys)
IsText-append [] ys hx hy = hy
IsText-append (x ∷ xs) ys hx hy = (hx.0, hx.1, IsText-append xs ys hx.2 hy)

pub text-end : (xs : List ℕ) (i : ℕ) → length xs ≤ i → text xs i ≡ 0
unfolding text
text-end [] i h = refl
text-end (x ∷ xs) zero h = absurd (omega arith)
text-end (x ∷ xs) (suc i) h = text-end xs i (omega arith)

pub text-append_left : (xs ys : List ℕ) (i : ℕ) → i < length xs → text (xs ++ ys) i ≡ text xs i
unfolding text
text-append_left [] ys i h = absurd (omega arith)
text-append_left (x ∷ xs) ys zero h = refl
text-append_left (x ∷ xs) ys (suc i) h = text-append_left xs ys i (omega arith)

pub text-append_right :
    (xs ys : List ℕ) (i j : ℕ) → j ≡ length xs + i → text (xs ++ ys) j ≡ text ys i
unfolding text
text-append_right [] ys i j e = let e' : j ≡ i = omega arith in rw e'
text-append_right (x ∷ xs) ys i zero e = absurd (omega arith)
text-append_right (x ∷ xs) ys i (suc j) e = text-append_right xs ys i j (omega arith)

-- Two texts that are shorter than the limit are the same as texts only if they are equal.
pub text-injective :
    (xs ys : List ℕ) (limit : ℕ)
    → IsText xs
    → IsText ys
    → length xs < limit
    → SameText (text xs) (text ys) 0 limit
    → xs ≡ ys
unfolding text
text-injective [] [] limit hx hy l h = refl
text-injective [] (y ∷ ys) limit hx hy l h =
    absurd (hy.0 (sym (h 0 (omega arith) (omega arith) (λ k lo hi. absurd (omega arith)))))
text-injective (x ∷ xs) [] limit hx hy l h =
    absurd (hx.0 (h 0 (omega arith) (omega arith) (λ k lo hi. absurd (omega arith))))
text-injective (x ∷ xs) (y ∷ ys) zero hx hy l h = absurd (omega arith)
text-injective (x ∷ xs) (y ∷ ys) (suc limit) hx hy l h =
    ap₂ ◌∷◌ (h 0 (omega arith) (omega arith) (λ k lo hi. absurd (omega arith)))
      (text-injective xs ys limit hx.2 hy.2 (omega arith) rest)
  where
    nonzero :
        (j : ℕ)
        → ((k : ℕ) → 0 ≤ k → k < j → text xs k ≢ 0)
        → (k : ℕ) → 0 ≤ k
        → k < suc j
        → text (x ∷ xs) k ≢ 0
    nonzero j before zero lo hi = hx.0
    nonzero j before (suc k) lo hi = before k (omega arith) (omega arith)

    rest : SameText (text xs) (text ys) 0 limit
    rest j lo hi before = h (suc j) (omega arith) (omega arith) (nonzero j before)
