-- ===== src/Print/Text.antt =====
-- puts of print.c sends a text to the screen and to the serial line.
use learning_osdev.Base.{
  ℕ, zero, suc, ◌+◌, ◌≤◌, ◌<◌, ◌≡◌, refl, arith, List, [], ◌∷◌, ◌++◌, length, ◌==◌, false, some, ap,
  ◌∙◌,
}
use mathlib.Core.List.{append_assoc, append-nil}
use learning_osdev.Str.{Bytes, text}
use learning_osdev.Str.Text.{IsText}
use learning_osdev.Vga.{draw_char}
use learning_osdev.Vga.Draw.{draw_text}
use learning_osdev.Print.{Console, serial_sent, putc, puts_loop, puts}

-- The console after a text.
abbrev pub shown : List ℕ → Console → Console
shown xs k = record { screen = draw_text xs k.screen; serial = k.serial ++ xs }

pub shown-nil : (k : Console) → shown [] k ≡ k
shown-nil k = ap (λ (t : List ℕ). record { screen = k.screen; serial = t }) (append-nil k.serial)

pub shown-cons : (c : ℕ) (cs : List ℕ) (k : Console) → shown cs (putc c k) ≡ shown (c ∷ cs) k
unfolding putc serial_sent
shown-cons c cs k =
    ap (λ (t : List ℕ). record { screen = draw_text cs (draw_char c k.screen); serial = t })
      (append_assoc k.serial (c ∷ []) cs)

-- The text `xs` and a NUL byte stand at `s + i`.
abbrev pub Holds : Bytes → ℕ → List ℕ → Type 0
Holds s i xs = (j : ℕ) → j ≤ length xs → s (i + j) ≡ text xs j

puts_loop-shown :
    (f i : ℕ) (s : Bytes) (xs : List ℕ) (k : Console)
    → IsText xs
    → Holds s i xs
    → length xs < f
    → puts_loop f i s k ≡ some (shown xs k)
unfolding puts_loop text
puts_loop-shown zero i s xs k t h lt = absurd (omega arith)
puts_loop-shown (suc f) i s [] k t h lt =
    let e : s i ≡ 0 = ap s (omega arith) ∙ h 0 (omega arith) in rw (e, shown-nil k) refl
puts_loop-shown (suc f) i s (c ∷ cs) k t h lt =
    let e : s i ≡ c = ap s (omega arith) ∙ h 0 (omega arith) in
    let ne : (c == 0) ≡ false = ground (arith, t.0) in
    let next : Holds s (i + 1) cs = λ j le. ap s (omega arith) ∙ h (suc j) (omega arith) in
    rw (e, ne)
      (puts_loop-shown f (i + 1) s cs (putc c k) t.2 next (omega arith)
        ∙ ap some (shown-cons c cs k))

-- Where a text and a NUL byte stand at the pointer, puts ends and sends exactly the text, in order,
-- to the screen and to the serial line.
pub puts_lem :
    (xs : List ℕ) (s : Bytes) (fuel : ℕ) (k : Console)
    → IsText xs
    → Holds s 0 xs
    → length xs < fuel
    → puts fuel s k ≡ some (shown xs k)
unfolding puts
puts_lem xs s fuel k t h lt = puts_loop-shown fuel 0 s xs k t h lt
