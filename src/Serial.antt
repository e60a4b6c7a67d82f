-- ===== src/Serial.antt =====
-- bootloader/cboot/src/serial.c, over the ports of a machine that is a parameter.
pub mod Uart
pub mod Line
pub mod Example
mod Tests
use learning_osdev.Base.{
  ℕ, zero, suc, ◌+◌, ◌*◌, ◌/◌, ◌%◌, ◌^◌, ◌==◌, if◌then◌else◌, Option, none, some, u8,
}
use learning_osdev.Ports.{Ports}

-- PORT, which is COM1.
abbrev pub port : ℕ
port = 0x3F8

module _ {D : Type 0} (ports : Ports D) where
  -- The writes in front of the test.
  unfoldable pub serial_setup : D → D
  serial_setup d =
      let d1 = ports.io_out8 (port + 1) 0x00 d in
      let d2 = ports.io_out8 (port + 3) 0x80 d1 in
      let d3 = ports.io_out8 (port + 0) 0x03 d2 in
      let d4 = ports.io_out8 (port + 1) 0x00 d3 in
      let d5 = ports.io_out8 (port + 3) 0x03 d4 in
      let d6 = ports.io_out8 (port + 2) 0xC7 d5 in
      let d7 = ports.io_out8 (port + 4) 0x0B d6 in
      let d8 = ports.io_out8 (port + 4) 0x1E d7 in ports.io_out8 (port + 0) 0xAE d8

  -- The return value, and the machine afterwards.
  unfoldable pub init_serial : D → ℕ × D
  init_serial d =
      let answer = ports.io_in8 (port + 0) (serial_setup d) in
      if answer.0 == 0xAE then (0, ports.io_out8 (port + 4) 0x0F answer.1) else (1, answer.1)

  -- `io_in8(PORT + 5) & 0x20`: bit 5.
  unfoldable pub is_transmit_empty : D → ℕ × D
  is_transmit_empty d =
      let status = ports.io_in8 (port + 5) d in (status.0 / 2 ^ 5 % 2 * 2 ^ 5, status.1)

  -- The wait runs on fuel, and `none` is a wait that has not ended when the fuel is gone.
  unfoldable pub serial_write_char : ℕ → ℕ → D → Option D
  serial_write_char zero a d = none
  serial_write_char (suc f) a d =
      let empty = is_transmit_empty d in
      let rest = serial_write_char f a empty.1 in
      if empty.0 == 0 then rest else some (ports.io_out8 port (u8 a) empty.1)
