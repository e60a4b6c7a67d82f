-- ===== src/Print/Dump.antt =====
-- hexdump of print.c prints bytes in groups and rows.
use learning_osdev.Base.{
  ℕ, zero, suc, ◌+◌, ◌-◌, ◌%◌, ◌≡◌, arith, List, [], ◌∷◌, ◌++◌, ◌==◌, if◌then◌else◌, some, ap, sym,
  ◌∙◌, u8, Bool-cases, inl, inr,
}
use learning_osdev.Str.{Bytes}
use learning_osdev.Print.{Console, putc, putx8, hexdump_gap, hexdump_loop, hexdump}
use learning_osdev.Print.Text.{shown, shown-nil, shown-cons}
use learning_osdev.Print.Printer.{shown-append}
use learning_osdev.Print.Hex.{hex_text, putx-shown}

-- What stands behind byte number `i`, counted from 1: a row has 32 bytes, in groups of two.
abbrev pub gap : ℕ → List ℕ
gap i = if i % 32 == 0 then b'\n' ∷ [] else if i % 2 == 0 then b' ' ∷ [] else []

-- The text of so many bytes, from number `i` on: each is two hexadecimal digits.
abbrev pub dump_text : ℕ → ℕ → Bytes → List ℕ
dump_text zero i buf = []
dump_text (suc n) i buf = hex_text 2 (u8 (buf (i - 1))) ++ gap i ++ dump_text n (i + 1) buf

shown-append_three :
    (xs ys zs : List ℕ) (k : Console) → shown zs (shown ys (shown xs k)) ≡ shown (xs ++ ys ++ zs) k
shown-append_three xs ys zs k = ap (shown zs) (shown-append xs ys k) ∙ shown-append (xs ++ ys) zs k

hexdump_gap-shown : (i : ℕ) (k : Console) → hexdump_gap i k ≡ shown (gap i) k
unfolding hexdump_gap
hexdump_gap-shown i k = elim (Bool-cases (i % 32 == 0)) [
  | inl row ↦ rw row (sym (shown-nil (putc b'\n' k)) ∙ shown-cons b'\n' [] k)
  | inr inside ↦ elim (Bool-cases (i % 2 == 0)) [
    | inl group ↦ rw (inside, group) (sym (shown-nil (putc b' ' k)) ∙ shown-cons b' ' [] k)
    | inr half ↦ rw (inside, half) (sym (shown-nil k))
  ]
]

hexdump_loop-shown :
    (left i : ℕ) (buf : Bytes) (k : Console)
    → hexdump_loop left i buf k ≡ some (shown (dump_text left i buf) k)
unfolding hexdump_loop putx8
hexdump_loop-shown zero i buf k = ap some (sym (shown-nil k))
hexdump_loop-shown (suc left) i buf k =
    rw
      (
        putx-shown 1 (u8 (buf (i - 1))) k (omega arith),
        hexdump_gap-shown i (shown (hex_text 2 (u8 (buf (i - 1)))) k),
        hexdump_loop-shown left (i + 1) buf
            (shown (gap i) (shown (hex_text 2 (u8 (buf (i - 1)))) k)),
      )
      (ap some
        (shown-append_three (hex_text 2 (u8 (buf (i - 1)))) (gap i) (dump_text left (i + 1) buf) k))

-- hexdump ends, and prints each byte as two hexadecimal digits, with a space after every second
-- byte, or a line feed after every 32nd.
pub hexdump_lem :
    (buf : Bytes) (size : ℕ) (k : Console)
    → hexdump buf size k ≡ some (shown (dump_text size 1 buf) k)
unfolding hexdump
hexdump_lem buf size k = hexdump_loop-shown size 1 buf k
