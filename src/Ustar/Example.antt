-- ===== src/Ustar/Example.antt =====
-- A header of an archive.
use learning_osdev.Base.{
  ℕ, ◌+◌, ◌-◌, ◌/◌, ◌%◌, ◌^◌, ◌<◌, ◌≡◌, refl, arith, List, ◌==◌, if◌then◌else◌, true, false, ltb,
  leb, ◌&&◌,
}
use learning_osdev.Str.{Bytes, text}
use learning_osdev.Ustar.{ustar_text}

-- The fields at their offsets.
abbrev pub header_of : ℕ → List ℕ → ℕ → Bytes
header_of type name size i =
    if ltb i 100
    then text name i
    else if leb 0x7c i && ltb i (0x7c + 11)
    then b'0' + size / 8 ^ (11 - 1 - (i - 0x7c)) % 8
    else if i == 156
    then type
    else if leb 257 i && ltb i 262
    then text ustar_text (i - 257)
    else 0

pub header_of-octal :
    (type : ℕ) (name : List ℕ) (size i : ℕ)
    → i < 11
    → header_of type name size (0x7c + i) ≡ b'0' + size / 8 ^ (11 - 1 - i) % 8
header_of-octal type name size i lt =
    let low : ltb (0x7c + i) 100 ≡ false = ground arith in
    let from_there : leb 0x7c (0x7c + i) ≡ true = ground arith in
    let in_field : ltb (0x7c + i) (0x7c + 11) ≡ true = ground arith in
    let e : 0x7c + i - 0x7c ≡ i = omega arith in rw (low, from_there, in_field, e) refl
