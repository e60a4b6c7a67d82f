-- ===== src/Loader/Layout.antt =====
-- An executable in memory, as map_kernel of bootloader/cboot/src/main.c expects it.
use learning_osdev.Base.{
  List, ◌++◌, ℕ, zero, suc, ◌+◌, ◌*◌, ◌^◌, ◌≤◌, ◌<◌, ◌≡◌, ◌≢◌, ◌⊎◌, ◌==◌, if◌then◌else◌, u64,
}
use learning_osdev.Elf.Text.{load_text}
use learning_osdev.Paging.{Paging}
use learning_osdev.Elf.{
  ProgramHeader, program_header, program_header_table_position, program_header_table_entry_size,
  program_header_table_entry_count,
}
use learning_osdev.Loader.{load_address}
use learning_osdev.Loader.Pages.{page_of, AreSmall}
use learning_osdev.Loader.Segment.{pages}

-- The bytes of the page tables that `left` headers from the `k`-th on can add.
unfoldable pub room : (ℕ → ProgramHeader) → ℕ → ℕ → ℕ
room header zero k = 0
room header (suc left) k =
    (if (header k).type == 1 then pages (header k).memsz * (3 * 4096) else 0)
    + room header left (k + 1)

-- `*kernel_size` after the `k`-th header, and after `left` headers from the `k`-th on.
abbrev pub size_with : (ℕ → ProgramHeader) → ℕ → ℕ → ℕ
size_with header k size = if (header k).type == 1 then u64 (size + (header k).memsz) else size

unfoldable pub size_after : (ℕ → ProgramHeader) → ℕ → ℕ → ℕ → ℕ
size_after header zero k size = size
size_after header (suc left) k size = size_after header left (k + 1) (size_with header k size)

-- What is printed up to the `k`-th header, and after `left` headers from the `k`-th on, given what
-- was printed before.
abbrev pub text_with : (ℕ → ProgramHeader) → ℕ → List ℕ → List ℕ
text_with header k text = if (header k).type == 1 then text ++ load_text (header k) else text

unfoldable pub text_after : (ℕ → ProgramHeader) → ℕ → ℕ → List ℕ → List ℕ
text_after header zero k text = text
text_after header (suc left) k text = text_after header left (k + 1) (text_with header k text)

-- Where the bytes of the `k`-th segment are in the file, and where they are copied to.
abbrev pub source : (ℕ → ProgramHeader) → ℕ → ℕ → ℕ
source header elf_file k = u64 (elf_file + (header k).offset)

abbrev pub target : (ℕ → ProgramHeader) → ℕ → ℕ → ℕ
target header code_buffer k = load_address code_buffer (header k)

-- A segment that can be loaded: `top` is where the page tables end, and the file lies between
-- `elf_file` and `file_end`.
pub record IsLoadable (s : Paging) (elf_file file_end code_buffer top : ℕ) (h : ProgramHeader)
    : Type 0 where
  pub source_low : elf_file ≤ u64 (elf_file + h.offset)
  pub source_high : u64 (elf_file + h.offset) + h.filesz ≤ file_end
  pub above : top ≤ load_address code_buffer h
  pub fits : load_address code_buffer h + h.filesz + 8 < 2 ^ 64
  pub clear_of_file :
      (file_end ≤ load_address code_buffer h) ⊎ (load_address code_buffer h + h.filesz ≤ elf_file)
  pub small : AreSmall (pages h.memsz) 0 h.vaddr s

-- Two segments that do not share a byte of the buffer or a page.
pub record IsApart (code_buffer : ℕ) (g h : ProgramHeader) : Type 0 where
  pub copies :
      (load_address code_buffer g + g.filesz ≤ load_address code_buffer h)
      ⊎ (load_address code_buffer h + h.filesz ≤ load_address code_buffer g)
  pub no_page :
      (i j : ℕ)
      → i < pages g.memsz
      → j < pages h.memsz
      → page_of (g.vaddr + 0x1000 * i) ≢ page_of (h.vaddr + 0x1000 * j)

-- The file at `elf_file` with `count` program headers, `header k` the `k`-th of them.
pub record IsExecutable (s : Paging) (elf_file file_end code_buffer top count : ℕ)
    (header : ℕ → ProgramHeader) (place : ℕ → ℕ) : Type 0 where
  pub first : place 0 ≡ u64 (elf_file + program_header_table_position s.mem elf_file)
  pub next :
      (k : ℕ)
      → suc k < count
      → place (k + 1) ≡ u64 (place k + program_header_table_entry_size s.mem elf_file)
  pub counted : program_header_table_entry_count s.mem elf_file ≡ count
  pub some_header : 0 < count
  pub header_low : (k : ℕ) → k < count → elf_file ≤ place k
  pub header_high : (k : ℕ) → k < count → place k + 56 ≤ file_end
  pub file_header : elf_file + 64 ≤ file_end
  pub file_fits : file_end + 8 < 2 ^ 64
  pub headers : (k : ℕ) → k < count → program_header s.mem (place k) ≡ header k
  pub loadable :
      (k : ℕ)
      → k < count
      → (header k).type ≡ 1
      → IsLoadable s elf_file file_end code_buffer top (header k)
  pub apart :
      (j k : ℕ)
      → j < k
      → k < count
      → (header j).type ≡ 1
      → (header k).type ≡ 1
      → IsApart code_buffer (header j) (header k)
  pub tables_fit : s.it + room header count 0 ≤ top
  pub top_low : top < 2 ^ 52
  pub top_below : top ≤ elf_file
