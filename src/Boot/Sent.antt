-- ===== src/Boot/Sent.antt =====
-- The bytes that cboot_main of bootloader/cboot/src/main.c prints, on the chip of the serial line.
use learning_osdev.Base.{
  ℕ, ◌<◌, ◌≡◌, ◌∙◌, refl, ap, sym, false, List, [], ◌∷◌, ◌++◌, Option, some, u8,
}
use mathlib.Core.List.{append_assoc, append-nil}
use learning_osdev.Ports.{Ports}
use learning_osdev.Serial.Uart.{divisor_latch, loopback, IsUart}
use learning_osdev.Serial.Line.{serial_write_char_lem}
use learning_osdev.Boot.{serial_write_bytes}

-- The text as bytes.
abbrev pub on_wire : List ℕ → List ℕ
on_wire [] = []
on_wire (c ∷ cs) = u8 c ∷ on_wire cs

module _ {D : Type 0} (ports : Ports D) (echo : ℕ → ℕ) (uart : IsUart ports echo) where
  -- `result` is a normal end with the bytes sent behind what was sent before.
  pub record IsWritten (text : List ℕ) (d : D) (result : Option D) : Type 0 where
    pub after : D
    pub returns : result ≡ some after
    pub sent_after : uart.sent after ≡ uart.sent d ++ on_wire text
    pub line : uart.registers after ≡ uart.registers d

  pub serial_write_bytes-IsWritten :
      (fuel : ℕ) (text : List ℕ) (d : D)
      → divisor_latch (uart.registers d) ≡ false
      → loopback (uart.registers d) ≡ false
      → uart.limit < fuel
      → IsWritten text d (serial_write_bytes ports fuel text d)
  unfolding serial_write_bytes
  serial_write_bytes-IsWritten fuel [] d latch normal enough = record {
    after = d;
    returns = refl;
    sent_after = sym (append-nil (uart.sent d));
    line = refl;
  }
  serial_write_bytes-IsWritten fuel (c ∷ cs) d latch normal enough =
      let first = serial_write_char_lem ports echo uart fuel c d latch normal enough in
      let rest =
        serial_write_bytes-IsWritten fuel cs first.after (rw first.line latch)
          (rw first.line normal) enough in
      rw (serial_write_bytes, first.returns)
        (record {
          after = rest.after;
          returns = rest.returns;
          sent_after =
              rest.sent_after
              ∙ ap (λ (t : List ℕ). t ++ on_wire cs) first.sent_after
              ∙ append_assoc (uart.sent d) (u8 c ∷ []) (on_wire cs);
          line = rest.line ∙ first.line;
        })
