-- ===== src/Str/Tests.antt =====
-- The string functions of mem.c at concrete arguments.
use learning_osdev.Base.{ℕ, ◌<◌, ◌≤◌, ◌≡◌, ◌↔◌, arith, List, [], ◌∷◌}
use learning_osdev.Str.{text, memcmp, strncmp, strncpy}
use learning_osdev.Str.Compare.{SameText, memcmp_lem, strncmp_lem}
use learning_osdev.Str.Copy.{IsCopied, strncpy_lem}
use learning_osdev.Str.Text.{text-IsBytes}

abbrev ab : List ℕ
ab = b'a' ∷ b'b' ∷ []

abbrev ac : List ℕ
ac = b'a' ∷ b'c' ∷ []

memcmp_lem_example :
    ((memcmp (text ab) (text ac) 2 ≡ 0) ↔ ((j : ℕ) → j < 2 → text ab j ≡ text ac j))
    × (memcmp (text ab) (text ac) 2 ≤ 1)
memcmp_lem_example = memcmp_lem (text ab) (text ac) 2

strncmp_lem_example : (strncmp (text ab) (text ac) 5 ≡ 0) ↔ SameText (text ab) (text ac) 0 5
strncmp_lem_example =
    strncmp_lem (text ab) (text ac) (text-IsBytes ab (ground arith))
      (text-IsBytes ac (ground arith)) 5

strncpy_lem_example : IsCopied 0 9 3 (text ab) (λ _. 7) (strncpy 3 (text ab) 9 (λ _. 7))
strncpy_lem_example = strncpy_lem 3 (text ab) 9 (λ _. 7)
