-- ===== src/Boot/Steps.antt =====
-- The steps of cboot_main of bootloader/cboot/src/main.c that print and halt.
use Prim.Native.String.{String}
use learning_osdev.Base.{ℕ, ◌≡◌, ◌∙◌, refl, sym, arith, ap, List, ◌++◌, codes, Option, some}
use mathlib.Core.List.{append_assoc}
use learning_osdev.Str.Text.{IsText}
use learning_osdev.Print.{Console}
use learning_osdev.Print.Text.{shown}
use learning_osdev.Print.Printer.{Printer, say, Prints, Prints-say, shown-append}
use learning_osdev.Print.Query.{Query}
use learning_osdev.Paging.{Paging, Cmd, prints, ◌>>=◌, ◌>>◌}
use learning_osdev.Paging.Printing.{with_console, prints-Prints}
use learning_osdev.Boot.{Outcome, halted, halt, asks}

-- The state after a text.
abbrev pub told : List ℕ → Paging → Paging
told xs s = with_console (shown xs s.console) s

pub told-told : (xs ys : List ℕ) (s : Paging) → told ys (told xs s) ≡ told (xs ++ ys) s
told-told xs ys s = ap (λ (k : Console). with_console k s) (shown-append xs ys s.console)

pub prints-step :
    {A : Type 0} {p : Printer} {xs : List ℕ} (c : Cmd A) (s : Paging)
    → Prints p xs
    → (prints p >> c) s ≡ c (told xs s)
prints-step c s h = rw (◌>>◌, ◌>>=◌, prints-Prints s h) refl

-- `result` is a halt that changes the console only: `text` is printed in front of "Halting".
abbrev pub IsHalt : List ℕ → Paging → Option (Outcome × Paging) → Type 0
IsHalt text s result = result ≡ some (halted, told (text ++ codes "Halting") s)

pub say-IsHalt :
    (t : String) (s : Paging) → IsText (codes t) → IsHalt (codes t) s ((prints (say t) >> halt) s)
unfolding halt
say-IsHalt t s h =
    prints-step halt s (Prints-say t h)
    ∙ rw (◌>>=◌, prints-Prints (told (codes t) s) (Prints-say "Halting" (ground arith)))
        (ap (λ (u : Paging). some (halted, u)) (told-told (codes t) (codes "Halting") s))

pub IsHalt-told :
    {result : Option (Outcome × Paging)} (xs ys : List ℕ) (s : Paging)
    → IsHalt ys (told xs s) result
    → IsHalt (xs ++ ys) s result
IsHalt-told xs ys s h =
    h
    ∙ ap (λ (u : Paging). some (halted, u))
        (told-told xs (ys ++ codes "Halting") s
          ∙ ap (λ (t : List ℕ). told t s) (sym (append_assoc xs ys (codes "Halting"))))

pub asks-step :
    {A B : Type 0} (q : Query A) {a : A} (xs : List ℕ) (f : A → Cmd B) (s : Paging)
    → q s.console ≡ some (a, shown xs s.console)
    → (asks q >>= f) s ≡ f a (told xs s)
asks-step q xs f s e = rw (◌>>=◌, asks, e) refl
