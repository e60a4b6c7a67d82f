-- ===== src/Serial/Example.antt =====
-- A sound chip that sends a byte in five readings.
use learning_osdev.Base.{ℕ, ◌+◌, ◌-◌, ◌%◌, ◌≡◌, refl, arith, ◌==◌, if◌then◌else◌, List, []}
use learning_osdev.Ports.{Ports}
use learning_osdev.Serial.Uart.{Registers, with_register, with_sent, IsUart}

pub record Chip : Type 0 where
  pub registers : Registers
  pub sent : List ℕ
  pub busy : ℕ

unfoldable pub sound : ℕ → ℕ
sound v = v

unfoldable pub ports : Ports Chip
ports = record {
  io_in8 = λ p d.
      if p == 0x3FD
      then (if d.busy % 6 == 0 then 0x60 else 0, record d { busy = d.busy % 6 - 1 })
      else (d.registers.received, d);
  io_in16 = λ p d. (0, d);
  io_out8 = λ p v d. record {
    registers = with_register sound (p - 0x3F8) v d.registers;
    sent = with_sent (p - 0x3F8) v d.registers d.sent;
    busy = if p == 0x3F8 then 5 else d.busy;
  };
  io_out32 = λ p v d. d;
}

unfoldable pub uart : IsUart ports sound
unfolding ports
uart = record {
  registers = λ d. d.registers;
  sent = λ d. d.sent;
  busy = λ d. d.busy % 6;
  limit = 5;
  busy_bound = λ d. omega arith;
  register_out = λ offset v d le.
      let o : 0x3F8 + offset - 0x3F8 ≡ offset = omega arith in rw o (refl, λ z free. refl);
  received_in = λ d latch. (refl, refl);
  status_busy = λ d more. ground arith;
  status_free = λ d free. ground arith;
  status_after = λ d. (refl, refl, omega arith);
}

unfoldable pub new_chip : Chip
new_chip = record {
  registers = record {
    divisor_low = 12;
    divisor_high = 0;
    interrupts = 1;
    fifo = 0;
    control = 0;
    modem = 0;
    received = 0;
  };
  sent = [];
  busy = 3;
}
