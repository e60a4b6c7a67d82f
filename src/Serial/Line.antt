-- ===== src/Serial/Line.antt =====
-- init_serial and serial_write_char of bootloader/cboot/src/serial.c on a UART.
use learning_osdev.Base.{
  ℕ, zero, suc, ◌+◌, ◌≤◌, ◌<◌, ◌≡◌, refl, ◌∙◌, arith, ◌==◌, if◌then◌else◌, [], ◌∷◌, ◌++◌, false,
  Bool-cases, inl, inr, Option, some, u8,
}
use learning_osdev.Ports.{Ports}
use learning_osdev.Serial.{port, serial_setup, init_serial, is_transmit_empty, serial_write_char}
use learning_osdev.Serial.Uart.{
  Registers, divisor_latch, loopback, with_register, with_sent, IsUart,
}

module _ {D : Type 0} (ports : Ports D) (echo : ℕ → ℕ) (uart : IsUart ports echo) where
  -- 38400 baud, 8 bits without parity, and the FIFO on.
  abbrev set_up : ℕ → Registers
  set_up modem = record {
    divisor_low = 3;
    divisor_high = 0;
    interrupts = 0;
    fifo = 0xC7;
    control = 3;
    modem = modem;
    received = echo 0xAE;
  }

  registers-io_out8 :
      {r : Registers} {d : D} (offset v : ℕ)
      → offset ≤ 4
      → uart.registers d ≡ r
      → uart.registers (ports.io_out8 (port + offset) v d) ≡ with_register echo offset v r
  registers-io_out8 {d} offset v hi e = rw (← e) ((uart.register_out offset v d hi).0)

  serial_setup_lem :
      (d : D)
      → divisor_latch (uart.registers d) ≡ false
      → uart.registers (serial_setup ports d) ≡ set_up 0x1E
  unfolding serial_setup with_register
  serial_setup_lem d latch =
      let s1 = registers-io_out8 1 0x00 (omega arith) (λ i. uart.registers d) in
      let s2 = registers-io_out8 3 0x80 (omega arith) s1 in
      let s3 = registers-io_out8 0 0x03 (omega arith) s2 in
      let s4 = registers-io_out8 1 0x00 (omega arith) s3 in
      let s5 = registers-io_out8 3 0x03 (omega arith) s4 in
      let s6 = registers-io_out8 2 0xC7 (omega arith) s5 in
      let s7 = registers-io_out8 4 0x0B (omega arith) s6 in
      let s8 = registers-io_out8 4 0x1E (omega arith) s7 in
      let s9 = registers-io_out8 0 0xAE (omega arith) s8 in s9 ∙ rw latch refl

  -- What init_serial returns, and the chip afterwards.
  pub record IsInitialised (result : ℕ × D) : Type 0 where
    pub code : result.0 ≡ (if echo 0xAE == 0xAE then 0 else 1)
    pub line : uart.registers result.1 ≡ set_up (if echo 0xAE == 0xAE then 0x0F else 0x1E)

  -- Where the divisor latch is off, init_serial sets the line to 38400 baud, 8 bits and no parity,
  -- and returns 0 with the loopback off if the chip gives the test byte back as it is; if not, it
  -- returns 1 and the loopback stays on.
  pub init_serial_lem :
      (d : D) → divisor_latch (uart.registers d) ≡ false → IsInitialised (init_serial ports d)
  unfolding init_serial with_register
  init_serial_lem d latch =
      let t = serial_setup ports d in
      let s = serial_setup_lem d latch in
      let received = uart.received_in t (rw s refl) in
      let same : (ports.io_in8 (port + 0) t).0 ≡ echo 0xAE = received.0 ∙ rw s refl in
      let kept : uart.registers (ports.io_in8 (port + 0) t).1 ≡ set_up 0x1E = received.1 ∙ s in
      elim (Bool-cases (echo 0xAE == 0xAE)) [
        | inl sound ↦
            rw (same, sound)
              (record {
                code = rw sound refl;
                line = rw sound (registers-io_out8 4 0x0F (omega arith) kept);
              })
        | inr faulty ↦ rw (same, faulty) (record { code = rw faulty refl; line = rw faulty kept })
      ]

  -- `result` is a normal end in which the byte is the last one sent.
  pub record IsSent (a : ℕ) (d : D) (result : Option D) : Type 0 where
    pub after : D
    pub returns : result ≡ some after
    pub sent_after : uart.sent after ≡ uart.sent d ++ (u8 a ∷ [])
    pub line : uart.registers after ≡ uart.registers d

  serial_write_char-IsSent :
      (a f : ℕ) (e : D)
      → divisor_latch (uart.registers e) ≡ false
      → loopback (uart.registers e) ≡ false
      → uart.busy e < f
      → IsSent a e (serial_write_char ports f a e)
  unfolding serial_write_char is_transmit_empty with_register with_sent
  serial_write_char-IsSent a zero e latch normal more = absurd (omega arith)
  serial_write_char-IsSent a (suc f) e latch normal more =
      let s = uart.status_after e in
      let next = (ports.io_in8 (port + 5) e).1 in
      elim (Bool-cases (uart.busy e == 0)) [
        | inl z ↦
            let free : uart.busy e ≡ 0 = ground arith in
            let out = uart.register_out 0 (u8 a) next (omega arith) in
            rw (uart.status_free e free) (record {
              after = ports.io_out8 port (u8 a) next;
              returns = refl;
              sent_after = out.1 refl (omega (arith, s.2)) ∙ rw (s.0, latch, normal, s.1) refl;
              line = out.0 ∙ rw (s.0, latch, normal) refl;
            })
        | inr nz ↦
            let waits : 0 < uart.busy e = ground arith in
            let rest =
              serial_write_char-IsSent a f next (rw s.0 latch) (rw s.0 normal)
                (omega (arith, s.2)) in
            rw (uart.status_busy e waits) (record {
              after = rest.after;
              returns = rest.returns;
              sent_after = rest.sent_after ∙ rw s.1 refl;
              line = rest.line ∙ s.0;
            })
      ]

  -- In normal operation, on a chip that waits for fewer readings of its status than the fuel,
  -- serial_write_char ends, has sent the byte and left the line as it was.
  pub serial_write_char_lem :
      (fuel a : ℕ) (d : D)
      → divisor_latch (uart.registers d) ≡ false
      → loopback (uart.registers d) ≡ false
      → uart.limit < fuel
      → IsSent a d (serial_write_char ports fuel a d)
  serial_write_char_lem fuel a d latch normal enough =
      serial_write_char-IsSent a fuel d latch normal (omega (arith, uart.busy_bound d))
