-- ===== src/Loader/Tests.antt =====
-- The theorems on map_kernel at a file with one segment of two pages, in front of empty tables.
use learning_osdev.Base.{ℕ, zero, suc, ◌+◌, ◌*◌, List, [], ◌∷◌, none, some, ◌==◌, if◌then◌else◌}
use learning_osdev.Mem.{Memory, store64}
use learning_osdev.Print.{Console}
use learning_osdev.Paging.{Paging, p4table}
use learning_osdev.Paging.Invariant.{Owner}
use learning_osdev.Elf.{ProgramHeader}

abbrev console : Console
console = record {
  screen = record {
    vga_buffer = λ n. record { character = b' '; colour = 7 };
    column_counter = 0;
    foreground = 7;
    background = 0;
  };
  serial = [];
}

abbrev blank : Paging
blank = record { mem = λ _. 0; it = 0x20000; cr3 = 0x1000; console = console }

abbrev root_only : Owner
root_only t = if t == p4table then some (3, 0) else none

abbrev elf_file : ℕ
elf_file = 0xFFFF800000200000

abbrev code_buffer : ℕ
code_buffer = 0xFFFF800010000000

-- The first program header, after the file's header.
abbrev elf_phdr : ℕ
elf_phdr = 0xFFFF800000200040

abbrev code_header : ProgramHeader
code_header = record {
  type = 1;
  offset = 0x1000;
  vaddr = 0xFFFF900000000000;
  paddr = 0;
  filesz = 16;
  memsz = 0x1800;
  align = 0x1000;
}

-- The words that are set, with their offsets in the file.
words : List (ℕ × ℕ)
words =
    (24, 0xFFFF900000000400)
    ∷ (32, 64)
    ∷ (48, 0x38000000000000)
    ∷ (56, 2)
    ∷ (64, 1)
    ∷ (72, 0x1000)
    ∷ (80, 0xFFFF900000000000)
    ∷ (96, 16)
    ∷ (104, 0x1800)
    ∷ (112, 0x1000)
    ∷ []

-- Every other byte is zero.
written : List (ℕ × ℕ) → Memory
written [] = λ _. 0
written ((offset, value) ∷ rest) = store64 (written rest) (elf_file + offset) value

file : Memory
file = written words

abbrev loaded : Paging
loaded = record blank { mem = file }

-- Theorems at these.
-- The second header is not of a segment to load.
abbrev headers : ℕ → ProgramHeader
headers zero = code_header
headers (suc k) = record {
  type = 0;
  offset = 0;
  vaddr = 0;
  paddr = 0;
  filesz = 0;
  memsz = 0;
  align = 0;
}

abbrev place : ℕ → ℕ
place k = elf_phdr + 56 * k
