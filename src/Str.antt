-- ===== src/Str.antt =====
-- memcmp, strncmp and strncpy of bootloader/cboot/src/mem.c. A pointer that is only read is the
-- function of the bytes from there on, by their offset.
pub mod Compare
pub mod Copy
mod Tests
pub mod Text
use learning_osdev.Base.{
  ℕ, zero, suc, ◌+◌, ◌-◌, ◌%◌, ◌^◌, ◌&&◌, not, List, [], ◌∷◌, ◌==◌, if◌then◌else◌, u8,
}

abbrev pub Bytes : Type 0
Bytes = ℕ → ℕ

-- `p + k`
abbrev pub from : ℕ → Bytes → Bytes
from k b i = b (k + i)

-- A text that ends in a NUL byte.
unfoldable pub text : List ℕ → Bytes
text [] i = 0
text (c ∷ cs) zero = c
text (c ∷ cs) (suc i) = text cs i

-- The loop of memcmp at index `i`, with so many bytes left.
unfoldable pub memcmp_loop : ℕ → ℕ → Bytes → Bytes → ℕ
memcmp_loop zero i b1 b2 = 0
memcmp_loop (suc left) i b1 b2 =
    let rest = memcmp_loop left (i + 1) b1 b2 in if b1 i == b2 i then rest else 1

unfoldable pub memcmp : Bytes → Bytes → ℕ → ℕ
unfolding memcmp_loop
memcmp s1 s2 size = memcmp_loop size 0 s1 s2

-- The result is the 32-bit pattern of the `int`. The loop stands at offset `i`, with `size` left.
unfoldable pub strncmp_loop : ℕ → ℕ → Bytes → Bytes → ℕ
strncmp_loop zero i s1 s2 = 0
strncmp_loop (suc size) i s1 s2 =
    let rest = strncmp_loop size (i + 1) s1 s2 in
    if not (s1 i == 0) && (s1 i == s2 i) then rest else (s1 i + 2 ^ 32 - s2 i) % 2 ^ 32

unfoldable pub strncmp : Bytes → Bytes → ℕ → ℕ
unfolding strncmp_loop
strncmp s1 s2 size = strncmp_loop size 0 s1 s2

-- A write to the buffer at an offset.
abbrev pub put : Bytes → ℕ → ℕ → Bytes
put b i v j = if j == i then v else b j

-- The loop of strncpy at `counter`, with `left` rounds at most; `at` is the offset of `dst` in its
-- buffer. The counter and the buffer are returned.
unfoldable pub strncpy_loop : ℕ → ℕ → ℕ → Bytes → Bytes → ℕ × Bytes
strncpy_loop zero counter at src buf = (counter, buf)
strncpy_loop (suc left) counter at src buf =
    let rest = strncpy_loop left (counter + 1) at src (put buf (at + counter) (src counter)) in
    if src counter == 0 then (counter, buf) else rest

unfoldable pub strncpy : ℕ → Bytes → ℕ → Bytes → ℕ × Bytes
unfolding strncpy_loop
strncpy at src sz buf = strncpy_loop sz 0 at src buf
