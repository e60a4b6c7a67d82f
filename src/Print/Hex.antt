-- ===== src/Print/Hex.antt =====
-- putx8, putx16, putx32 and putx64 of print.c print a number in hexadecimal.
use learning_osdev.Base.{
  ℕ, zero, suc, ◌+◌, ◌-◌, ◌*◌, ◌/◌, ◌%◌, ◌^◌, ◌≤◌, ◌<◌, ◌≡◌, refl, arith, List, [], ◌∷◌, length,
  ◌==◌, leb, ltb, ==_iff, Bool, ◌&&◌, if◌then◌else◌, true, false, Option, some, ap, sym, ◌∙◌, u8,
  u16, u32, u64, ◌⊎◌, Bool-cases, inl, inr,
}
use native.Mathlib.Nat.{pow-suc, div-div-eq-div-mul, div-eq_of_lt}
use learning_osdev.Str.{Bytes, text, put}
use learning_osdev.Str.Text.{IsText, text-end}
use learning_osdev.Print.{Console, hexdigits, putx_loop, putx, putx8, putx16, putx32, putx64}
use learning_osdev.Print.Text.{shown, Holds, puts_lem}

abbrev pub digit : ℕ → ℕ
digit d = if ltb d 10 then b'0' + d else b'A' + (d - 10)

abbrev pub digit_value : ℕ → ℕ
digit_value c = if leb c b'9' then c - b'0' else c - b'A' + 10

abbrev all_below : ℕ → (ℕ → Bool) → Bool
all_below zero p = true
all_below (suc n) p = p n && all_below n p

all_below-get : (n i : ℕ) (p : ℕ → Bool) → all_below n p ≡ true → i < n → p i ≡ true
all_below-get zero i p h lt = absurd (omega arith)
all_below-get (suc n) i p h lt = elim (Bool-cases (i == n)) [
  | inl e ↦ let same : i ≡ n = ground arith in rw same (ground arith)
  | inr ne ↦ all_below-get n i p (ground arith) (ground arith)
]

hexdigits-digit : (d : ℕ) → d < 16 → text hexdigits d ≡ digit d
unfolding text
hexdigits-digit d lt =
    (==_iff (text hexdigits d) (digit d)).0
      (all_below-get 16 d (λ i. text hexdigits i == digit i) refl lt)

-- The last `n` hexadecimal digits of a number.
abbrev pub hex_text : ℕ → ℕ → List ℕ
hex_text zero v = []
hex_text (suc n) v = digit (v / 16 ^ n % 16) ∷ hex_text n v

-- The number that a text of hexadecimal digits says, after `acc`.
abbrev pub read_hex : List ℕ → ℕ → ℕ
read_hex [] acc = acc
read_hex (c ∷ cs) acc = read_hex cs (acc * 16 + digit_value c)

digit-value : (d : ℕ) → d < 16 → digit_value (digit d) ≡ d
digit-value d lt = ground arith

div-pow-suc : (v n : ℕ) → v / 16 ^ suc n ≡ v / 16 ^ n / 16
div-pow-suc v n = ap (λ (t : ℕ). v / t) (pow-suc 16 n) ∙ sym (div-div-eq-div-mul v (16 ^ n) 16)

read_hex-hex_text : (n v : ℕ) → read_hex (hex_text n v) (v / 16 ^ n) ≡ v
read_hex-hex_text zero v = omega arith
read_hex-hex_text (suc n) v =
    let next : v / 16 ^ suc n * 16 + digit_value (digit (v / 16 ^ n % 16)) ≡ v / 16 ^ n =
      omega (arith, div-pow-suc v n, digit-value (v / 16 ^ n % 16) (omega arith)) in
    ap (λ (acc : ℕ). read_hex (hex_text n v) acc) next ∙ read_hex-hex_text n v

hex_text-length : (n v : ℕ) → length (hex_text n v) ≡ n
hex_text-length zero v = refl
hex_text-length (suc n) v = ap suc (hex_text-length n v)

hex_text-IsText : (n v : ℕ) → IsText (hex_text n v)
hex_text-IsText zero v = tt
hex_text-IsText (suc n) v = (ground arith, ground arith, hex_text-IsText n v)

hex_text-get : (n v j : ℕ) → j < n → text (hex_text n v) j ≡ digit (v / 16 ^ (n - 1 - j) % 16)
unfolding text
hex_text-get zero v j lt = absurd (omega arith)
hex_text-get (suc n) v zero lt = let e : suc n - 1 - 0 ≡ n = omega arith in rw e refl
hex_text-get (suc n) v (suc j) lt =
    let e : suc n - 1 - suc j ≡ n - 1 - j = omega arith in rw e (hex_text-get n v j (omega arith))

pow-bits : (n : ℕ) → 2 ^ (n * 4) ≡ 16 ^ n
pow-bits zero = refl
pow-bits (suc n) =
    let e : suc n * 4 ≡ suc (suc (suc (suc (n * 4)))) = omega arith in
    ap (λ (t : ℕ). 2 ^ t) e
    ∙ omega (
      arith,
      pow-suc 2 (suc (suc (suc (n * 4)))),
      pow-suc 2 (suc (suc (n * 4))),
      pow-suc 2 (suc (n * 4)),
      pow-suc 2 (n * 4),
      pow-suc 16 n,
      pow-bits n,
    )

-- The digits from the end on to digit `i` are in the buffer already, and those before are added.
putx_loop-get :
    (left i size val : ℕ) (buf : Bytes) (j : ℕ)
    → i + left ≡ size * 2
    → putx_loop left i size val buf j
      ≡ (if ltb j left then digit (val / 2 ^ ((size * 2 - 1 - j) * 4) % 16) else buf j)
unfolding putx_loop
putx_loop-get zero i size val buf j e = let out : ltb j 0 ≡ false = ground arith in rw out refl
putx_loop-get (suc left) i size val buf j e =
    putx_loop-get left (i + 1) size val
      (put buf (size * 2 - 1 - i) (text hexdigits (val / 2 ^ (i * 4) % 16))) j (omega arith)
    ∙ rw (hexdigits-digit (val / 2 ^ (i * 4) % 16) (omega arith)) (elim (Bool-cases (j == left)) [
      | inl here ↦
          let same : j ≡ left = ground arith in
          let at : size * 2 - 1 - i ≡ left = omega arith in
          let back : size * 2 - 1 - left ≡ i = omega arith in rw (same, at, back) (ground arith)
      | inr other ↦ let at : size * 2 - 1 - i ≡ left = omega arith in rw at (ground arith)
    ])

module _ (size val : ℕ) where
  abbrev buffer : Bytes
  buffer = putx_loop (size * 2) 0 size val (λ _. 0)

  buffer-Holds : Holds buffer 0 (hex_text (size * 2) val)
  buffer-Holds j le =
      let at : 0 + j ≡ j = omega arith in
      ap buffer at
      ∙ putx_loop-get (size * 2) 0 size val (λ _. 0) j (omega arith)
      ∙ (elim (Bool-cases (ltb j (size * 2))) [
        | inl lt ↦
            let inside : j < size * 2 = ground arith in
            rw (lt, hex_text-get (size * 2) val j inside, pow-bits (size * 2 - 1 - j)) refl
        | inr out ↦
            let past : length (hex_text (size * 2) val) ≤ j =
              ground (arith, hex_text-length (size * 2) val) in
            rw (out, text-end (hex_text (size * 2) val) j past) refl
      ])

  pub putx-shown :
      (k : Console) → size ≤ 8 → putx size val k ≡ some (shown (hex_text (size * 2) val) k)
  unfolding putx
  putx-shown k le =
      puts_lem (hex_text (size * 2) val) buffer 20 k (hex_text-IsText (size * 2) val) buffer-Holds
        (omega (arith, hex_text-length (size * 2) val))

-- The characters 0 to 9 and A to F.
abbrev pub IsDigit : ℕ → Type 0
IsDigit c = ((b'0' ≤ c) × (c ≤ b'9')) ⊎ ((b'A' ≤ c) × (c ≤ b'F'))

abbrev pub AreDigits : List ℕ → Type 0
AreDigits [] = Unit {0}
AreDigits (c ∷ cs) = IsDigit c × AreDigits cs

hex_text-AreDigits : (n v : ℕ) → AreDigits (hex_text n v)
hex_text-AreDigits zero v = tt
hex_text-AreDigits (suc n) v = (ground arith, hex_text-AreDigits n v)

-- The text that a call prints: so many digits, which say the number.
pub record IsHex (digits val : ℕ) (k : Console) (result : Option Console) : Type 0 where
  pub printed : List ℕ
  pub ends : result ≡ some (shown printed k)
  pub are_digits : AreDigits printed
  pub width : length printed ≡ digits
  pub reads_back : read_hex printed 0 ≡ val

putx-IsHex :
    (size val : ℕ) (k : Console)
    → size ≤ 8
    → val < 16 ^ (size * 2)
    → IsHex (size * 2) val k (putx size val k)
putx-IsHex size val k le fits = record {
  printed = hex_text (size * 2) val;
  ends = putx-shown size val k le;
  are_digits = hex_text-AreDigits (size * 2) val;
  width = hex_text-length (size * 2) val;
  reads_back =
      ap (λ (acc : ℕ). read_hex (hex_text (size * 2) val) acc) (sym (div-eq_of_lt fits))
      ∙ read_hex-hex_text (size * 2) val;
}

-- Each of the four functions ends, and prints 2, 4, 8 or 16 of the hexadecimal digits 0 to 9 and
-- A to F, the highest first, that read back as the number.
pub putx_lem :
    (val : ℕ) (k : Console)
    → IsHex 2 (u8 val) k (putx8 val k)
      × IsHex 4 (u16 val) k (putx16 val k)
      × IsHex 8 (u32 val) k (putx32 val k)
      × IsHex 16 (u64 val) k (putx64 val k)
unfolding putx8 putx16 putx32 putx64
putx_lem val k = (
  putx-IsHex 1 (u8 val) k (omega arith) (omega arith),
  putx-IsHex 2 (u16 val) k (omega arith) (omega arith),
  putx-IsHex 4 (u32 val) k (omega arith) (omega arith),
  putx-IsHex 8 (u64 val) k (omega arith) (omega arith),
)
