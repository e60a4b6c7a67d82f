-- ===== src/Boot/Example.antt =====
-- The parts of a machine that cboot_main does not read back.
use learning_osdev.Base.{ℕ}
use learning_osdev.Serial.Example.{Chip, new_chip, sound, uart}
use learning_osdev.Interrupts.{Idt}
use learning_osdev.Interrupts.Handlers.{Handler}
use learning_osdev.Paging.{Paging}
use learning_osdev.Boot.{Machine}
use learning_osdev.Boot.Main.{HasLine}
use learning_osdev.Base.{refl, arith}

abbrev pub address : Handler → ℕ
address h = 0x8000

abbrev pub no_gates : Idt
no_gates i = record {
  offset_low = 0;
  selector = 0;
  options = record {
    ist_index = 0;
    reserved1 = 0;
    gatetype = 0;
    reserved2 = 0;
    reserved3 = 0;
    privilege = 0;
    present = 0;
  };
  offset_mid = 0;
  offset_high = 0;
  zero2 = 0;
}

abbrev pub machine_with : Paging → Machine Chip
machine_with p = record {
  paging = p;
  idt = no_gates;
  idtr = record { limit = 0; base = 0 };
  device = new_chip;
}

pub chip-HasLine : HasLine uart 30 new_chip
unfolding uart new_chip sound
chip-HasLine = record { sound = refl; latch = refl; prompt = omega arith }
