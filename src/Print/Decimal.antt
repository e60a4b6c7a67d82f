-- ===== src/Print/Decimal.antt =====
-- putd of print.c prints a number in decimal.
use learning_osdev.Base.{
  ℕ, zero, suc, ◌+◌, ◌-◌, ◌*◌, ◌/◌, ◌%◌, ◌^◌, ◌≤◌, ◌<◌, ◌≡◌, ◌≢◌, refl, arith, List, [], ◌∷◌, ◌++◌,
  length, length-append, ◌==◌, ltb, if◌then◌else◌, Option, some, ap, sym, ◌∙◌, Bool-cases, false,
  inl, inr, ◌>>=◌,
}
use native.Mathlib.Nat.{pow-suc}
use learning_osdev.Str.{Bytes, text, put, from}
use learning_osdev.Str.Text.{IsText, IsText-append, text-end, text-append_left, text-append_right}
use learning_osdev.Print.{Console, putd_loop, putd, puts}
use learning_osdev.Print.Text.{shown, Holds, puts_lem}

-- The number that a text of decimal digits says, after `acc`.
abbrev pub read_dec : List ℕ → ℕ → ℕ
read_dec [] acc = acc
read_dec (c ∷ cs) acc = read_dec cs (acc * 10 + (c - b'0'))

read_dec-append :
    (xs : List ℕ) (c acc : ℕ) → read_dec (xs ++ (c ∷ [])) acc ≡ read_dec xs acc * 10 + (c - b'0')
read_dec-append [] c acc = refl
read_dec-append (x ∷ xs) c acc = read_dec-append xs c (acc * 10 + (x - b'0'))

-- The digits of a number, `width` at most, and the text that stands for it.
unfoldable pub dec_digits : ℕ → ℕ → List ℕ
dec_digits zero v = []
dec_digits (suc width) v = if v == 0 then [] else dec_digits width (v / 10) ++ (b'0' + v % 10) ∷ []

unfoldable pub dec_text : ℕ → List ℕ
dec_text v = if v == 0 then b'0' ∷ [] else dec_digits 20 v

dec_digits-zero : (width : ℕ) → dec_digits width 0 ≡ []
unfolding dec_digits
dec_digits-zero zero = refl
dec_digits-zero (suc width) = refl

dec_digits-suc :
    (width v : ℕ)
    → (v == 0) ≡ false
    → dec_digits (suc width) v ≡ dec_digits width (v / 10) ++ (b'0' + v % 10) ∷ []
unfolding dec_digits
dec_digits-suc width v more = rw more refl

dec_text-nonzero : (v : ℕ) → (v == 0) ≡ false → dec_text v ≡ dec_digits 20 v
unfolding dec_text
dec_text-nonzero v more = rw more refl

-- What the loop leaves: the digits of `val`, `width` at most, before the index `s`, and no other
-- byte changed.
record IsDigits (val s width : ℕ) (buf : Bytes) (result : Option (ℕ × Bytes)) : Type 0 where
  pub digits : List ℕ
  pub start : ℕ
  pub after : Bytes
  pub ends : result ≡ some (start, after)
  pub place : start + length digits ≡ s
  pub holds : (j : ℕ) → j < length digits → after (start + j) ≡ text digits j
  pub outside : (j : ℕ) → s ≤ j → after j ≡ buf j
  pub is_text : IsText digits
  pub reads_back : read_dec digits 0 ≡ val
  pub short : length digits ≤ width
  pub same : digits ≡ dec_digits width val

IsDigits-step :
    (val s width : ℕ) (buf : Bytes) (result : Option (ℕ × Bytes))
    → 1 ≤ s
    → (val == 0) ≡ false
    → IsDigits (val / 10) (s - 1) width (put buf (s - 1) (b'0' + val % 10)) result
    → IsDigits val s (suc width) buf result
unfolding text
IsDigits-step val s width buf result pos more d = record {
  digits = d.digits ++ (c ∷ []);
  start = d.start;
  after = d.after;
  ends = d.ends;
  place = omega (arith, grown, d.place);
  holds = λ j lt. elim (Bool-cases (ltb j (length d.digits))) [
    | inl inside ↦
        let lt' : j < length d.digits = ground arith in
        d.holds j lt' ∙ sym (text-append_left d.digits (c ∷ []) j lt')
    | inr past ↦
        let at : j ≡ length d.digits + 0 = ground (arith, grown) in
        ap d.after (omega (arith, d.place))
        ∙ d.outside (s - 1) (omega arith)
        ∙ here
        ∙ sym (text-append_right d.digits (c ∷ []) 0 j at)
  ];
  outside = λ j le. d.outside j (omega arith) ∙ ground arith;
  is_text = IsText-append d.digits (c ∷ []) d.is_text (ground arith);
  reads_back = read_dec-append d.digits c 0 ∙ omega (arith, d.reads_back);
  short = omega (arith, grown, d.short);
  same = ap (λ xs. xs ++ (c ∷ [])) d.same ∙ sym (dec_digits-suc width val more);
}
  where
    c : ℕ
    c = b'0' + val % 10

    grown : length (d.digits ++ (c ∷ [])) ≡ length d.digits + 1
    grown = length-append d.digits (c ∷ [])

    here : put buf (s - 1) (b'0' + val % 10) (s - 1) ≡ c
    here = ground arith

putd_loop-suc :
    (f val s : ℕ) (buf : Bytes)
    → putd_loop (suc f) val s buf ≡ (
        if val == 0
        then some (s, buf)
        else putd_loop f (val / 10) (s - 1) (put buf (s - 1) (b'0' + val % 10)))
unfolding putd_loop
putd_loop-suc f val s buf = refl

stopped : (s width : ℕ) (buf : Bytes) → IsDigits 0 s width buf (some (s, buf))
stopped s width buf = record {
  digits = [];
  start = s;
  after = buf;
  ends = refl;
  place = omega arith;
  holds = λ j lt. absurd (omega arith);
  outside = λ j le. refl;
  is_text = tt;
  reads_back = refl;
  short = omega arith;
  same = sym (dec_digits-zero width);
}

putd_loop-IsDigits :
    (width val s : ℕ) (buf : Bytes)
    → val < 10 ^ width
    → width ≤ s
    → IsDigits val s width buf (putd_loop (suc width) val s buf)
putd_loop-IsDigits zero val s buf fits room =
    let e : val ≡ 0 = omega arith in rw (e, putd_loop-suc 0 0 s buf) (stopped s zero buf)
putd_loop-IsDigits (suc width) val s buf fits room =
    rw (putd_loop-suc (suc width) val s buf) (elim (Bool-cases (val == 0)) [
      | inl z ↦ let e : val ≡ 0 = ground arith in rw e (stopped s (suc width) buf)
      | inr more ↦ rw more (
          IsDigits-step val s width buf
            (putd_loop (suc width) (val / 10) (s - 1) (put buf (s - 1) (b'0' + val % 10)))
            (omega arith) more
            (putd_loop-IsDigits width (val / 10) (s - 1) (put buf (s - 1) (b'0' + val % 10))
              (omega (arith, pow-suc 10 width)) (omega arith)))
    ])

-- The text that a call prints: from 1 to 20 digits, which say the number.
pub record IsDecimal (val : ℕ) (k : Console) (result : Option Console) : Type 0 where
  pub printed : List ℕ
  pub ends : result ≡ some (shown printed k)
  pub reads_back : read_dec printed 0 ≡ val
  pub nonempty : 1 ≤ length printed
  pub short : length printed ≤ 20
  pub same : printed ≡ dec_text val

IsDigits-nonempty : (val : ℕ) (xs : List ℕ) → val ≢ 0 → read_dec xs 0 ≡ val → 1 ≤ length xs
IsDigits-nonempty val [] ne e = absurd (ne (sym e))
IsDigits-nonempty val (x ∷ xs) ne e = omega arith

IsDigits-printed :
    (val : ℕ) (buf : Bytes) (result : Option (ℕ × Bytes)) (k : Console)
    → val ≢ 0
    → buf 30 ≡ 0
    → IsDigits val 30 20 buf result
    → IsDecimal val k (result >>= λ r. puts 32 (from r.0 r.1) k)
IsDigits-printed val buf result k ne nul d = rw d.ends (record {
  printed = d.digits;
  ends =
      puts_lem d.digits (from d.start d.after) 32 k d.is_text text_there (omega (arith, d.short));
  reads_back = d.reads_back;
  nonempty = IsDigits-nonempty val d.digits ne d.reads_back;
  short = d.short;
  same = d.same ∙ sym (dec_text-nonzero val (ground arith));
})
  where
    text_there : Holds (from d.start d.after) 0 d.digits
    text_there j le = elim (Bool-cases (ltb j (length d.digits))) [
      | inl lt ↦ ap d.after (omega arith) ∙ d.holds j (ground arith)
      | inr past ↦
          ap d.after (ground (arith, d.place))
          ∙ d.outside 30 (omega arith)
          ∙ nul
          ∙ sym (text-end d.digits j (ground arith))
    ]

abbrev zero_written : Bytes
zero_written = put (put (λ _. 0) 30 0) 29 b'0'

zero-IsDecimal : (k : Console) → IsDecimal 0 k (puts 32 (from 29 zero_written) k)
zero-IsDecimal k = record {
  printed = b'0' ∷ [];
  ends = puts_lem (b'0' ∷ []) (from 29 zero_written) 32 k (ground arith) there (omega arith);
  reads_back = refl;
  nonempty = omega arith;
  short = omega arith;
  same = unfold dec_text in refl;
}
  where
    there : Holds (from 29 zero_written) 0 (b'0' ∷ [])
    there zero le = unfold text in refl
    there (suc zero) le = unfold text in refl
    there (suc (suc j)) le = absurd (omega arith)

-- putd ends, and prints from 1 to 20 decimal digits, the highest first, that read back as the
-- number.
pub putd_lem : (val : ℕ) (k : Console) → val < 2 ^ 64 → IsDecimal val k (putd val k)
unfolding putd
putd_lem val k fits = elim (Bool-cases (val == 0)) [
  | inl z ↦
      let e : val ≡ 0 = ground arith in
      rw (e, putd_loop-suc 20 0 29 zero_written) (zero-IsDecimal k)
  | inr more ↦ rw more (
      IsDigits-printed val (put (λ _. 0) 30 0) (putd_loop 21 val 30 (put (λ _. 0) 30 0)) k
        (λ z. ground arith) refl
        (putd_loop-IsDigits 20 val 30 (put (λ _. 0) 30 0) (omega arith) (omega arith)))
]

-- The text by a function of the number.
pub putd-shown : (val : ℕ) (k : Console) → val < 2 ^ 64 → putd val k ≡ some (shown (dec_text val) k)
putd-shown val k fits = let d = putd_lem val k fits in d.ends ∙ ap (λ xs. some (shown xs k)) d.same
