-- ===== src/Serial/Uart.antt =====
-- A UART of the 16550 kind behind the ports of bootloader/cboot/src/serial.c, as its data sheet
-- describes the registers that the code uses: what the code relies on of the chip.
use learning_osdev.Base.{
  ℕ, ◌+◌, ◌-◌, ◌/◌, ◌%◌, ◌^◌, ◌≤◌, ◌<◌, ◌≡◌, ◌==◌, if◌then◌else◌, List, [], ◌∷◌, ◌++◌, Bool, false,
}
use learning_osdev.Ports.{Ports}
use learning_osdev.Serial.{port}

pub record Registers : Type 0 where
  pub divisor_low : ℕ
  pub divisor_high : ℕ
  pub interrupts : ℕ
  pub fifo : ℕ
  pub control : ℕ
  pub modem : ℕ
  pub received : ℕ

-- Bit 7 of the line control selects the divisor at the first two ports; bit 4 of the modem control
-- leads what is sent back to the chip.
abbrev pub divisor_latch : Registers → Bool
divisor_latch r = r.control / 2 ^ 7 % 2 == 1

abbrev pub loopback : Registers → Bool
loopback r = r.modem / 2 ^ 4 % 2 == 1

-- The effect of a write on the registers. `echo` is what the chip makes of a byte that is led back,
-- the same byte if the chip is sound.
unfoldable pub with_register : (ℕ → ℕ) → ℕ → ℕ → Registers → Registers
with_register echo offset v r =
    if offset == 0
    then (if divisor_latch r
        then record r { divisor_low = v }
        else if loopback r
        then record r { received = echo v }
        else r)
    else if offset == 1
    then (if divisor_latch r then record r { divisor_high = v } else record r { interrupts = v })
    else if offset == 2
    then record r { fifo = v }
    else if offset == 3
    then record r { control = v }
    else record r { modem = v }

-- What is on the line after a write.
unfoldable pub with_sent : ℕ → ℕ → Registers → List ℕ → List ℕ
with_sent offset v r sent =
    if offset == 0
    then (if divisor_latch r then sent else if loopback r then sent else sent ++ (v ∷ []))
    else sent

pub record IsUart {D : Type 0} (ports : Ports D) (echo : ℕ → ℕ) : Type 0 where
  pub registers : D → Registers
  pub sent : D → List ℕ
  -- So many readings of the status, at most, still show a byte that waits to be sent.
  pub busy : D → ℕ
  pub limit : ℕ
  pub busy_bound : (d : D) → busy d ≤ limit
  pub register_out :
      (offset v : ℕ) (d : D)
      → offset ≤ 4
      → (registers (ports.io_out8 (port + offset) v d) ≡ with_register echo offset v (registers d))
        × (offset ≡ 0
            → busy d ≡ 0
            → sent (ports.io_out8 (port + offset) v d) ≡ with_sent offset v (registers d) (sent d))
  pub received_in :
      (d : D)
      → divisor_latch (registers d) ≡ false
      → ((ports.io_in8 (port + 0) d).0 ≡ (registers d).received)
        × (registers (ports.io_in8 (port + 0) d).1 ≡ registers d)
  pub status_busy : (d : D) → 0 < busy d → (ports.io_in8 (port + 5) d).0 / 2 ^ 5 % 2 ≡ 0
  pub status_free : (d : D) → busy d ≡ 0 → (ports.io_in8 (port + 5) d).0 / 2 ^ 5 % 2 ≡ 1
  pub status_after :
      (d : D)
      → (registers (ports.io_in8 (port + 5) d).1 ≡ registers d)
        × (sent (ports.io_in8 (port + 5) d).1 ≡ sent d)
        × (busy (ports.io_in8 (port + 5) d).1 ≤ busy d - 1)
