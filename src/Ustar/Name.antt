-- ===== src/Ustar/Name.antt =====
-- The path that ustar.c builds from the header of an entry.
use learning_osdev.Base.{
  ℕ, zero, suc, ◌+◌, ◌-◌, ◌≤◌, ◌<◌, ◌≡◌, ◌⊎◌, inl, inr, refl, arith, List, ◌∷◌, ◌++◌, length, ap,
  sym, ◌∙◌, length-append,
}
use learning_osdev.Str.{Bytes, text, put}
use learning_osdev.Str.Copy.{IsCopied, strncpy_lem}
use learning_osdev.Str.Text.{IsText, text-nonzero, text-end, text-append_left, text-append_right}
use learning_osdev.Ustar.{full_filename, mdata_filename, mdata_filename_prefix}

-- A field of `width` bytes that holds a text, with a NUL byte after it if there is room.
pub record IsField (field : Bytes) (width : ℕ) (xs : List ℕ) : Type 0 where
  pub holds : (j : ℕ) → j < width → field j ≡ text xs j
  pub fits : length xs ≤ width
  pub is_text : IsText xs

-- strncpy from a field copies the text and nothing else.
copied_length :
    {sz at : ℕ} {src buf : Bytes} {result : ℕ × Bytes} (xs : List ℕ)
    → IsField src sz xs
    → IsCopied 0 sz at src buf result
    → result.0 ≡ length xs
copied_length {src} {result} xs f c = elim (order result.0 (length xs)) [
  | inl lt ↦
      absurd (ground (arith, c.stops, f.fits, f.holds result.0, text-nonzero xs result.0 f.is_text))
  | inr (inl e) ↦ e
  | inr (inr gt) ↦ absurd (
      c.nonzero (length xs) (omega arith) gt
        (f.holds (length xs) (omega (arith, c.below)) ∙ text-end xs (length xs) (omega arith)))
]
  where
    order : (a b : ℕ) → (a < b) ⊎ (a ≡ b) ⊎ (b < a)
    order a b = ground arith

-- The buffer after a field is copied to the offset `at` and nothing is behind.
copied_at :
    {sz at : ℕ} {src buf : Bytes} {result : ℕ × Bytes} (xs : List ℕ)
    → IsField src sz xs
    → IsCopied 0 sz at src buf result
    → (result.0 ≡ length xs)
      × ((k : ℕ) → k < length xs → result.1 (at + k) ≡ text xs k)
      × ((j : ℕ) → (j < at) ⊎ (at + length xs ≤ j) → result.1 j ≡ buf j)
copied_at xs f c =
    let n = copied_length xs f c in
    (
      n,
      λ k lt. c.copied k (omega arith) (omega arith) ∙ f.holds k (omega (arith, f.fits)),
      λ j h. c.outside j (omega arith),
    )

abbrev pub path_of : List ℕ → List ℕ → List ℕ
path_of prefix name = b'/' ∷ prefix ++ name

-- What copied_at says of a buffer.
abbrev Copied : ℕ → List ℕ → Bytes → ℕ × Bytes → Type 0
Copied at xs buf result =
    (result.0 ≡ length xs)
    × ((k : ℕ) → k < length xs → result.1 (at + k) ≡ text xs k)
    × ((j : ℕ) → (j < at) ⊎ (at + length xs ≤ j) → result.1 j ≡ buf j)

place_cases : (k a b : ℕ) → (k < a) ⊎ ((a ≤ k) × (k < a + b)) ⊎ (a + b ≤ k)
place_cases k a b = ground arith

filename_join :
    (prefix name : List ℕ) (r1 r2 : ℕ × Bytes)
    → Copied 1 prefix (put (λ _. 0) 0 b'/') r1
    → Copied (1 + r1.0) name r1.1 r2
    → (j : ℕ) → r2.1 j ≡ text (path_of prefix name) j
filename_join prefix name r1 r2 (n1, in1, out1) (n2, in2, out2) zero =
    out2 0 (omega arith) ∙ out1 0 (omega arith) ∙ (unfold text in refl)
filename_join prefix name r1 r2 (n1, in1, out1) (n2, in2, out2) (suc k) = place ∙ tail
  where
    tail : text (prefix ++ name) k ≡ text (path_of prefix name) (suc k)
    tail = unfold text in refl

    place : r2.1 (suc k) ≡ text (prefix ++ name) k
    place = elim (place_cases k (length prefix) (length name)) [
      | inl lt ↦
          let e : 1 + k ≡ suc k = omega arith in
          out2 (suc k) (omega arith)
          ∙ ap r1.1 (sym e)
          ∙ in1 k lt
          ∙ sym (text-append_left prefix name k lt)
      | inr (inl (ge, lt)) ↦
          let e : 1 + r1.0 + (k - length prefix) ≡ suc k = omega arith in
          ap r2.1 (sym e)
          ∙ in2 (k - length prefix) (omega arith)
          ∙ sym (text-append_right prefix name (k - length prefix) k (omega arith))
      | inr (inr ge) ↦
          let zero_there : put (λ _. 0) 0 b'/' (suc k) ≡ 0 = ground arith in
          out2 (suc k) (omega arith)
          ∙ out1 (suc k) (omega arith)
          ∙ zero_there
          ∙ sym (text-end (prefix ++ name) k (omega (arith, length-append prefix name)))
    ]

-- The buffer holds a slash, the prefix and the name, with no slash between these two, and zeroes.
pub full_filename_lem :
    (buf : Bytes) (prefix name : List ℕ)
    → IsField (mdata_filename_prefix buf) 155 prefix
    → IsField (mdata_filename buf) 100 name
    → (j : ℕ) → full_filename buf j ≡ text (path_of prefix name) j
unfolding full_filename
full_filename_lem buf prefix name fp fn =
    filename_join prefix name _ _ (copied_at prefix fp (strncpy_lem 1 _ 155 _))
      (copied_at name fn (strncpy_lem _ _ 100 _))
