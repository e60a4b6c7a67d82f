-- ===== src/Print.antt =====
-- bootloader/cboot/src/print.c, over the screen and the serial line.
pub mod Text
pub mod Hex
pub mod Printer
pub mod Query
pub mod Decimal
pub mod Dump
mod Tests
use learning_osdev.Base.{
  ℕ, zero, suc, ◌+◌, ◌-◌, ◌*◌, ◌/◌, ◌%◌, ◌^◌, ◌==◌, if◌then◌else◌, u8, u16, u32, u64, Option, none,
  some, List, [], ◌∷◌, ◌++◌, ◌>>=◌,
}
use learning_osdev.Str.{Bytes, text, put, from}
use learning_osdev.Vga.{Screen, draw_char}

-- The screen, and the bytes sent to COM1, the first one first.
pub record Console : Type 0 where
  pub screen : Screen
  pub serial : List ℕ

-- What serial_write_char does once the line is free.
unfoldable pub serial_sent : ℕ → Console → Console
serial_sent a k = record k { serial = k.serial ++ (a ∷ []) }

unfoldable pub putc : ℕ → Console → Console
putc c k = serial_sent c (record k { screen = draw_char c k.screen })

-- The loop at the pointer `s + i`.
unfoldable pub puts_loop : ℕ → ℕ → Bytes → Console → Option Console
puts_loop zero i s k = none
puts_loop (suc f) i s k =
    let rest = puts_loop f (i + 1) s (putc (s i) k) in if s i == 0 then some k else rest

unfoldable pub puts : ℕ → Bytes → Console → Option Console
puts fuel s k = puts_loop fuel 0 s k

abbrev pub hexdigits : List ℕ
hexdigits =
    b'0' ∷ b'1' ∷ b'2' ∷ b'3' ∷ b'4' ∷ b'5' ∷ b'6' ∷ b'7' ∷ b'8' ∷ b'9' ∷ b'A' ∷ b'B' ∷ b'C' ∷ b'D'
    ∷ b'E' ∷ b'F' ∷ []

-- The loop that the four functions share, for a value of `size` bytes: at digit `i`, with so many
-- digits left.
unfoldable pub putx_loop : ℕ → ℕ → ℕ → ℕ → Bytes → Bytes
putx_loop zero i size val buf = buf
putx_loop (suc left) i size val buf =
    putx_loop left (i + 1) size val
      (put buf (size * 2 - 1 - i) (text hexdigits (val / 2 ^ (i * 4) % 16)))

-- The buffer has 20 bytes, which bounds the text that puts finds in it.
unfoldable pub putx : ℕ → ℕ → Console → Option Console
putx size val k = puts 20 (putx_loop (size * 2) 0 size val (λ _. 0)) k

unfoldable pub putx8 : ℕ → Console → Option Console
putx8 val = putx 1 (u8 val)

unfoldable pub putx16 : ℕ → Console → Option Console
putx16 val = putx 2 (u16 val)

unfoldable pub putx32 : ℕ → Console → Option Console
putx32 val = putx 4 (u32 val)

unfoldable pub putx64 : ℕ → Console → Option Console
putx64 val = putx 8 (u64 val)

-- `for(; val; val/=10) *--s = '0' + val%10;` with `s` as an index: `s` and the buffer afterwards.
unfoldable pub putd_loop : ℕ → ℕ → ℕ → Bytes → Option (ℕ × Bytes)
putd_loop zero val s buf = none
putd_loop (suc f) val s buf =
    let rest = putd_loop f (val / 10) (s - 1) (put buf (s - 1) (b'0' + val % 10)) in
    if val == 0 then some (s, buf) else rest

-- A u64 has 20 decimal digits at most.
unfoldable pub putd : ℕ → Console → Option Console
putd val k =
    let zeroed = put (λ _. 0) 30 0 in
    let start : ℕ × Bytes = if val == 0 then (29, put zeroed 29 b'0') else (30, zeroed) in
    putd_loop 21 val start.0 start.1 >>= λ r. puts 32 (from r.0 r.1) k

-- What follows byte number `i`.
unfoldable pub hexdump_gap : ℕ → Console → Console
hexdump_gap i k = if i % 32 == 0 then putc b'\n' k else if i % 2 == 0 then putc b' ' k else k

-- The loop at `i`, with so many bytes left.
unfoldable pub hexdump_loop : ℕ → ℕ → Bytes → Console → Option Console
hexdump_loop zero i buf k = some k
hexdump_loop (suc left) i buf k =
    putx8 (buf (i - 1)) k >>= λ k2. hexdump_loop left (i + 1) buf (hexdump_gap i k2)

unfoldable pub hexdump : Bytes → ℕ → Console → Option Console
hexdump buf size k = hexdump_loop size 1 buf k
