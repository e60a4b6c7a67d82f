-- ===== src/Elf.antt =====
-- bootloader/cboot/include/elf64.h, and what map_kernel of bootloader/cboot/src/main.c prints of an
-- executable.
pub mod Text
pub mod Words
use learning_osdev.Base.{ℕ, ◌+◌, ◌*◌, ◌^◌, u16}
use learning_osdev.Mem.{Memory, load64}
use learning_osdev.Print.{putx16, putx64}
use learning_osdev.Print.Printer.{Printer, ◌>>◌, char, say}

-- Reads through a `u16*` and a `u32*`.
unfoldable pub load16 : Memory → ℕ → ℕ
load16 m p = m p + 2 ^ 8 * m (p + 1)

unfoldable pub load32 : Memory → ℕ → ℕ
load32 m p = m p + 2 ^ 8 * m (p + 1) + 2 ^ 16 * m (p + 2) + 2 ^ 24 * m (p + 3)

-- The fields of ELF64FileHeader that are read, at their offsets.
abbrev pub entry_point : Memory → ℕ → ℕ
entry_point m elf_file = load64 m (elf_file + 24)

abbrev pub program_header_table_position : Memory → ℕ → ℕ
program_header_table_position m elf_file = load64 m (elf_file + 32)

abbrev pub program_header_table_entry_size : Memory → ℕ → ℕ
program_header_table_entry_size m elf_file = load16 m (elf_file + 54)

abbrev pub program_header_table_entry_count : Memory → ℕ → ℕ
program_header_table_entry_count m elf_file = load16 m (elf_file + 56)

-- ELF64ProgramHeader, the fields that are used.
pub record ProgramHeader : Type 0 where
  pub type : ℕ
  pub offset : ℕ
  pub vaddr : ℕ
  pub paddr : ℕ
  pub filesz : ℕ
  pub memsz : ℕ
  pub align : ℕ

unfoldable pub program_header : Memory → ℕ → ProgramHeader
program_header m p = record {
  type = load32 m p;
  offset = load64 m (p + 8);
  vaddr = load64 m (p + 16);
  paddr = load64 m (p + 24);
  filesz = load64 m (p + 32);
  memsz = load64 m (p + 40);
  align = load64 m (p + 48);
}

-- The lines in front of the loop.
unfoldable pub print_title : Printer
print_title = do
  say "Program Headers:\n"
  say "  Type           Offset             VirtAddr           PhysAddr\n"
  say "                 FileSiz            MemSiz              Flags  Align\n"

-- The two lines for a segment to load.
unfoldable pub print_load : ProgramHeader → Printer
print_load h = do
  say "  LOAD           0x"
  putx64 h.offset
  say " 0x"
  putx64 h.vaddr
  say " 0x"
  putx64 h.paddr
  say "\n                 0x"
  putx64 h.filesz
  say " 0x"
  putx64 h.memsz
  say "         0x"
  putx16 (u16 h.align)
  char b'\n'
