-- ===== src/Ata.antt =====
-- bootloader/cboot/src/ata.c, over the ports of a machine that is a parameter. A loop that waits
-- runs on fuel, and `none` is a wait that has not ended when the fuel is gone.
pub mod Drive
pub mod Read
pub mod Wait
pub mod Write
mod Tests
use learning_osdev.Base.{
  ℕ, zero, suc, ◌+◌, ◌*◌, ◌/◌, ◌%◌, ◌^◌, ◌==◌, if◌then◌else◌, Option, none, some, u8, u32, ◌>>=◌,
}
use learning_osdev.Ports.{Ports}
use learning_osdev.Str.{Bytes, put}

-- `*p = v` through a `uint16_t*`, and `*p` through a `uint32_t*`: little-endian.
unfoldable pub store16 : Bytes → ℕ → ℕ → Bytes
store16 b p v = put (put b p (v % 2 ^ 8)) (p + 1) (v / 2 ^ 8 % 2 ^ 8)

unfoldable pub load32 : Bytes → ℕ → ℕ
load32 b p = b p + 2 ^ 8 * b (p + 1) + 2 ^ 16 * b (p + 2) + 2 ^ 24 * b (p + 3)

module _ {D : Type 0} (ports : Ports D) where
  -- `while(io_in8(0x1F7) & PIO_STATUS_BSY);`, a test of bit 7.
  unfoldable pub ata_pio_wait_bsy : ℕ → D → Option D
  ata_pio_wait_bsy zero d = none
  ata_pio_wait_bsy (suc f) d =
      let status = ports.io_in8 0x1F7 d in
      let rest = ata_pio_wait_bsy f status.1 in
      if status.0 / 2 ^ 7 % 2 == 1 then rest else some status.1

  -- `while(!(io_in8(0x1F7) & PIO_STATUS_RDY));`, a test of bit 6.
  unfoldable pub ata_pio_wait_drq : ℕ → D → Option D
  ata_pio_wait_drq zero d = none
  ata_pio_wait_drq (suc f) d =
      let status = ports.io_in8 0x1F7 d in
      let rest = ata_pio_wait_drq f status.1 in
      if status.0 / 2 ^ 6 % 2 == 1 then some status.1 else rest

  -- The six writes that start a command. The low four bits of 0xE0 are 0, so the bitwise or is a
  -- sum.
  unfoldable pub ata_pio_command : ℕ → ℕ → ℕ → D → D
  ata_pio_command command first_sector num_sectors d =
      let d1 = ports.io_out8 0x1F6 (0xE0 + first_sector / 2 ^ 24 % 2 ^ 4) d in
      let d2 = ports.io_out8 0x1F2 num_sectors d1 in
      let d3 = ports.io_out8 0x1F3 (u8 first_sector) d2 in
      let d4 = ports.io_out8 0x1F4 (u8 (first_sector / 2 ^ 8)) d3 in
      let d5 = ports.io_out8 0x1F5 (u8 (first_sector / 2 ^ 16)) d4 in ports.io_out8 0x1F7 command d5

  -- The loop over `i`, with so many words left. `dest` counts words from the start of `dst`.
  unfoldable pub read_words : ℕ → ℕ → ℕ → Bytes → D → Bytes × D
  read_words zero i dest dst d = (dst, d)
  read_words (suc left) i dest dst d =
      let word = ports.io_in16 0x1F0 d in
      read_words left (i + 1) dest (store16 dst (2 * (dest + i)) word.0) word.1

  -- The loop over `j`, with so many sectors left.
  unfoldable pub read_sectors : ℕ → ℕ → ℕ → Bytes → D → Option (Bytes × D)
  read_sectors fuel zero dest dst d = some (dst, d)
  read_sectors fuel (suc left) dest dst d = do
    d1 ← ata_pio_wait_bsy fuel d
    d2 ← ata_pio_wait_drq fuel d1
    let words = read_words 256 0 dest dst d2
    read_sectors fuel left (dest + 256) words.0 words.1

  -- The bytes at `dst` and the machine afterwards. Each wait has so much fuel.
  unfoldable pub ata_pio_read_sectors : ℕ → Bytes → ℕ → ℕ → D → Option (Bytes × D)
  ata_pio_read_sectors fuel dst first_sector num_sectors d = do
    d1 ← ata_pio_wait_bsy fuel d
    read_sectors fuel (u8 num_sectors) 0 dst
        (ata_pio_command 0x20 (u32 first_sector) (u8 num_sectors) d1)

  -- The loop over `i`, with so many words left; `next` counts the words from `src` on to `data`, and is given back.
  unfoldable pub write_words : ℕ → Bytes → ℕ → D → ℕ × D
  write_words zero src next d = (next, d)
  write_words (suc left) src next d =
      write_words left src (next + 1) (ports.io_out32 0x1F0 (load32 src (4 * next)) d)

  -- The loop over `j`, with so many sectors left.
  unfoldable pub write_sectors : ℕ → ℕ → Bytes → ℕ → D → Option D
  write_sectors fuel zero src next d = some d
  write_sectors fuel (suc left) src next d = do
    d1 ← ata_pio_wait_bsy fuel d
    d2 ← ata_pio_wait_drq fuel d1
    let words = write_words 256 src next d2
    write_sectors fuel left src words.0 words.1

  unfoldable pub ata_pio_write_sectors : ℕ → Bytes → ℕ → ℕ → D → Option D
  ata_pio_write_sectors fuel src first_sector num_sectors d = do
    d1 ← ata_pio_wait_bsy fuel d
    write_sectors fuel (u8 num_sectors) src 0
        (ata_pio_command 0x30 (u32 first_sector) (u8 num_sectors) d1)
