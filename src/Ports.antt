-- ===== src/Ports.antt =====
-- The instructions of bootloader/cboot/src/ports.c, as operations on a machine that is a parameter:
-- a read gives a value and the machine afterwards, a write the machine afterwards.
use learning_osdev.Base.{ℕ}

pub record Ports (D : Type 0) : Type 0 where
  pub io_in8 : ℕ → D → ℕ × D
  pub io_in16 : ℕ → D → ℕ × D
  pub io_out8 : ℕ → ℕ → D → D
  pub io_out32 : ℕ → ℕ → D → D
