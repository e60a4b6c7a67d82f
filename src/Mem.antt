-- ===== src/Mem.antt =====
-- bootloader/cboot/src/mem.c, over a flat memory of bytes. A pointer is its 64-bit address and
-- pointer arithmetic wraps at 2 ^ 64. Each loop runs on fuel, and `none` is a loop that has not
-- ended when the fuel is gone.
mod Bytes
pub mod Copy
mod Fill
pub mod Set
mod Tests
mod Transfer
pub mod Words
use learning_osdev.Base.{
  ℕ, zero, suc, ◌+◌, ◌*◌, ◌/◌, ◌%◌, ◌^◌, ◌&&◌, not, Option, none, some, ltb, ◌==◌, if◌then◌else◌,
  u64, u8, ◌>>=◌,
}

-- The byte at each address.
abbrev pub Memory : Type 0
Memory = ℕ → ℕ

-- `*p = v` through a `u8*`.
unfoldable pub store8 : Memory → ℕ → ℕ → Memory
store8 m p v a = if a == p then u8 v else m a

-- `*p` through a `u64*`, and `*p = v`: little-endian.
unfoldable pub load64 : Memory → ℕ → ℕ
load64 m p =
    m p
    + 2 ^ 8 * m (p + 1)
    + 2 ^ 16 * m (p + 2)
    + 2 ^ 24 * m (p + 3)
    + 2 ^ 32 * m (p + 4)
    + 2 ^ 40 * m (p + 5)
    + 2 ^ 48 * m (p + 6)
    + 2 ^ 56 * m (p + 7)

unfoldable pub store64 : Memory → ℕ → ℕ → Memory
store64 m p v a =
    if a == p
    then v % 2 ^ 8
    else if a == p + 1
    then v / 2 ^ 8 % 2 ^ 8
    else if a == p + 2
    then v / 2 ^ 16 % 2 ^ 8
    else if a == p + 3
    then v / 2 ^ 24 % 2 ^ 8
    else if a == p + 4
    then v / 2 ^ 32 % 2 ^ 8
    else if a == p + 5
    then v / 2 ^ 40 % 2 ^ 8
    else if a == p + 6
    then v / 2 ^ 48 % 2 ^ 8
    else if a == p + 7
    then v / 2 ^ 56 % 2 ^ 8
    else m a

-- `while (p % 8 != 0 && p < end) *p++ = val;`
pub memset_align : ℕ → ℕ → ℕ → ℕ → Memory → Option (ℕ × Memory)
memset_align zero val end p m = none
memset_align (suc f) val end p m =
    let rest = memset_align f val end (u64 (p + 1)) (store8 m p val) in
    if not (p % 8 == 0) && ltb p end then rest else some (p, m)

-- `while (p + 8 < end) *p++ = val;` through a `u64*`
pub memset_words : ℕ → ℕ → ℕ → ℕ → Memory → Option (ℕ × Memory)
memset_words zero val end p m = none
memset_words (suc f) val end p m =
    let rest = memset_words f val end (u64 (p + 8)) (store64 m p val) in
    if ltb (u64 (p + 8)) end then rest else some (p, m)

-- `while (p < end) *p++ = val;`
pub memset_bytes : ℕ → ℕ → ℕ → ℕ → Memory → Option Memory
memset_bytes zero val end p m = none
memset_bytes (suc f) val end p m =
    let rest = memset_bytes f val end (u64 (p + 1)) (store8 m p val) in
    if ltb p end then rest else some m

-- Each loop moves towards `end` by at least one byte a round, so `size + 1` rounds are enough.
unfoldable pub memset : ℕ → ℕ → ℕ → Memory → Option Memory
unfolding memset_align memset_words memset_bytes
memset dst val size m = do
  (p, m1) ← memset_align (size + 1) val (u64 (dst + size)) dst m
  (q, m2) ← memset_words (size + 1) val (u64 (dst + size)) p m1
  memset_bytes (size + 1) val (u64 (dst + size)) q m2

-- `while (p % 8 != 0 && p < end) *p++ = *q++;`
pub memcpy_align : ℕ → ℕ → ℕ → ℕ → Memory → Option (ℕ × ℕ × Memory)
memcpy_align zero end p q m = none
memcpy_align (suc f) end p q m =
    let rest = memcpy_align f end (u64 (p + 1)) (u64 (q + 1)) (store8 m p (m q)) in
    if not (p % 8 == 0) && ltb p end then rest else some (p, q, m)

-- `while (p + 8 < end) *p++ = *q++;` through `u64*`
pub memcpy_words : ℕ → ℕ → ℕ → ℕ → Memory → Option (ℕ × ℕ × Memory)
memcpy_words zero end p q m = none
memcpy_words (suc f) end p q m =
    let rest = memcpy_words f end (u64 (p + 8)) (u64 (q + 8)) (store64 m p (load64 m q)) in
    if ltb (u64 (p + 8)) end then rest else some (p, q, m)

-- `while (p < end) *p++ = *q++;`
pub memcpy_bytes : ℕ → ℕ → ℕ → ℕ → Memory → Option Memory
memcpy_bytes zero end p q m = none
memcpy_bytes (suc f) end p q m =
    let rest = memcpy_bytes f end (u64 (p + 1)) (u64 (q + 1)) (store8 m p (m q)) in
    if ltb p end then rest else some m

unfoldable pub memcpy : ℕ → ℕ → ℕ → Memory → Option Memory
unfolding memcpy_align memcpy_words memcpy_bytes
memcpy dst src size m = do
  (p, q, m1) ← memcpy_align (size + 1) (u64 (dst + size)) dst src m
  (p2, q2, m2) ← memcpy_words (size + 1) (u64 (dst + size)) p q m1
  memcpy_bytes (size + 1) (u64 (dst + size)) p2 q2 m2
