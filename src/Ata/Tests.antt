-- ===== src/Ata/Tests.antt =====
-- The theorems on ata.c at a small machine: a drive that shows itself busy three times after each
-- command and each sector.
use learning_osdev.Base.{
  ℕ, ◌+◌, ◌-◌, ◌*◌, ◌%◌, refl, arith, ◌==◌, if◌then◌else◌, Bool-cases, inl, inr,
}
use learning_osdev.Ports.{Ports}
use learning_osdev.Ustar.{Disk}
use learning_osdev.Ata.{ata_pio_read_sectors}
use learning_osdev.Ata.Drive.{
  Registers, with_register, address, sectors, Phase, idle, reading, transfer, disk_word, IsDrive,
}
use learning_osdev.Ata.Read.{IsRead, ata_pio_read_sectors_lem}

record Machine : Type 0 where
  registers : Registers
  phase : Phase
  busy : ℕ

-- Byte `i` of sector `s`.
sample : Disk
sample s i = (s + i) % 256

word_of : Phase → ℕ
word_of idle = 0
word_of (reading next left) = disk_word sample next

after_word : Phase → Phase
after_word idle = idle
after_word (reading next left) = transfer (next + 1) left

busy_after : Phase → ℕ
busy_after idle = 0
busy_after (reading next left) = if (next + 1) % 256 == 0 then 3 else 0

start : ℕ → Machine → Machine
start command d =
    if command == 0x20
    then record d {
      phase = transfer (256 * address d.registers) (256 * sectors d.registers);
      busy = 3;
    }
    else d

ports : Ports Machine
ports = record {
  io_in8 = λ port d. (if d.busy % 4 == 0 then 0x40 else 0x80, record d { busy = d.busy % 4 - 1 });
  io_in16 = λ port d.
      (word_of d.phase, record d { phase = after_word d.phase; busy = busy_after d.phase });
  io_out8 = λ port v d.
      if port == 0x1F7
      then start v d
      else record d { registers = with_register port v d.registers };
  io_out32 = λ port v d. d;
}

drive : IsDrive ports sample
unfolding ports start word_of after_word busy_after transfer
drive = record {
  registers = λ d. d.registers;
  phase = λ d. d.phase;
  busy = λ d. d.busy % 4;
  limit = 3;
  busy_bound = λ d. omega arith;
  status_busy = λ d more. ground arith;
  status_free = λ d free. (ground arith, ground arith);
  status_after = λ d. (refl, refl, omega arith);
  register_out = λ port v d lo hi rest free. elim (Bool-cases (port == 0x1F7)) [
    | inl e ↦ absurd (ground arith)
    | inr ne ↦ rw ne (refl, rest, free)
  ];
  read_out = λ d rest free lba. refl;
  word_in = λ next left d here free. rw here (refl, refl, λ ne. ground arith);
}

-- An idle drive.
at_rest : Machine
at_rest = record {
  registers = record { device = 0; count = 0; low = 0; mid = 0; high = 0 };
  phase = idle;
  busy = 2;
}

ata_pio_read_sectors_lem_example :
    IsRead ports sample drive
      (λ i. 0)
      0x12345
      2
      (ata_pio_read_sectors ports 4 (λ i. 0) 0x12345 2 at_rest)
unfolding at_rest drive sample
ata_pio_read_sectors_lem_example =
    ata_pio_read_sectors_lem ports sample drive 4 0x12345 2 (λ i. 0) at_rest (λ s i. omega arith)
      refl (omega arith)
