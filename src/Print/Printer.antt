-- ===== src/Print/Printer.antt =====
-- Sequences of calls of print.c, and what they print.
use Prim.Native.String.{String}
use learning_osdev.Base.{
  ℕ, ◌+◌, ◌^◌, ◌<◌, ◌≡◌, refl, arith, List, [], ◌∷◌, ◌++◌, length, Option, none, some, codes, Bool,
  true, false, if◌then◌else◌, ap, sym, ◌∙◌, u16, u64,
}
use mathlib.Core.List.{append_assoc}
use learning_osdev.Str.{text}
use learning_osdev.Str.Text.{IsText}
use learning_osdev.Vga.{Screen, draw_char}
use learning_osdev.Vga.Draw.{draw_text}
use learning_osdev.Print.{Console, putc, puts, putx16, putx64, putd}
use learning_osdev.Print.Text.{shown, shown-nil, shown-cons, puts_lem}
use learning_osdev.Print.Hex.{hex_text, putx-shown}
use learning_osdev.Print.Decimal.{dec_text, putd-shown}

-- A call that prints; `none` is a loop that does not end.
abbrev pub Printer : Type 0
Printer = Console → Option Console

infixl 5 ◌>>◌
abbrev pub ◌>>◌ : Printer → Printer → Printer
◌>>◌ p q k = elim (p k) [ none ↦ none | some k' ↦ q k' ]

abbrev pub quiet : Printer
quiet k = some k

abbrev pub char : ℕ → Printer
char c k = some (putc c k)

-- puts of a literal, which its NUL byte ends.
unfoldable pub say : String → Printer
say s = puts (length (codes s) + 1) (text (codes s))

-- The call ends, and prints exactly the text.
pub record Prints (p : Printer) (xs : List ℕ) : Type 0 where
  pub run : (k : Console) → p k ≡ some (shown xs k)

draw_text-append :
    (xs ys : List ℕ) (s : Screen) → draw_text (xs ++ ys) s ≡ draw_text ys (draw_text xs s)
draw_text-append [] ys s = refl
draw_text-append (x ∷ xs) ys s = draw_text-append xs ys (draw_char x s)

pub shown-append : (xs ys : List ℕ) (k : Console) → shown ys (shown xs k) ≡ shown (xs ++ ys) k
shown-append xs ys k = rw (draw_text-append xs ys k.screen, append_assoc k.serial xs ys) refl

pub Prints-then :
    {p q : Printer} {xs ys : List ℕ} → Prints p xs → Prints q ys → Prints (p >> q) (xs ++ ys)
Prints-then {p} {q} {xs} {ys} hp hq = record {
  run = λ k. rw (◌>>◌, hp.run k) (hq.run (shown xs k) ∙ ap some (shown-append xs ys k));
}

pub Prints-quiet : Prints quiet []
Prints-quiet = record { run = λ k. ap some (sym (shown-nil k)) }

pub Prints-char : (c : ℕ) → Prints (char c) (c ∷ [])
Prints-char c = record { run = λ k. ap some (sym (shown-nil (putc c k)) ∙ shown-cons c [] k) }

pub Prints-say : (s : String) → IsText (codes s) → Prints (say s) (codes s)
unfolding say
Prints-say s t = record {
  run = λ k.
      puts_lem (codes s) (text (codes s)) (length (codes s) + 1) k t
        (λ j le. ap (text (codes s)) (omega arith)) (omega arith);
}

pub Prints-putd : (v : ℕ) → v < 2 ^ 64 → Prints (putd v) (dec_text v)
Prints-putd v lt = record { run = λ k. putd-shown v k lt }

pub Prints-putx64 : (v : ℕ) → Prints (putx64 v) (hex_text 16 (u64 v))
unfolding putx64
Prints-putx64 v = record { run = λ k. putx-shown 8 (u64 v) k (omega arith) }

pub Prints-putx16 : (v : ℕ) → Prints (putx16 v) (hex_text 4 (u16 v))
unfolding putx16
Prints-putx16 v = record { run = λ k. putx-shown 2 (u16 v) k (omega arith) }

pub Prints-if :
    (b : Bool) {p q : Printer} {xs ys : List ℕ}
    → Prints p xs
    → Prints q ys
    → Prints (if b then p else q) (if b then xs else ys)
Prints-if true hp hq = hp
Prints-if false hp hq = hq
