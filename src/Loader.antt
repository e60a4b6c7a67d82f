-- ===== src/Loader.antt =====
-- map_kernel of bootloader/cboot/src/main.c, over bootloader/cboot/include/elf64.h. The memory is
-- flat: an access through the physical map of the upper half is not an access to the page tables
-- below.
pub mod Layout
pub mod Pages
pub mod Program
pub mod Rounds
pub mod Segment
pub mod Transfer
mod Tests
use learning_osdev.Base.{
  ℕ, zero, suc, ◌+◌, ◌-◌, ◌*◌, ◌/◌, ◌%◌, ◌^◌, ◌==◌, ltb, if◌then◌else◌, Option, none, some, u64,
}
use learning_osdev.Mem.{Memory, load64, memcpy}
use learning_osdev.Elf.{
  ProgramHeader, entry_point, load16, load32, program_header, program_header_table_entry_count,
  program_header_table_entry_size, program_header_table_position,
}
use learning_osdev.Elf.{print_title, print_load}
use learning_osdev.Paging.{prints, Paging, Cmd, pure, ◌>>=◌, ◌>>◌, map_4kb_page}

-- ALIGN_UP_4KB
unfoldable pub align_up_4kb : ℕ → ℕ
align_up_4kb n = u64 (n + 0x1000 - n % 0x1000)

-- `(u64)code_buffer+offset-align`
unfoldable pub load_address : ℕ → ProgramHeader → ℕ
load_address code_buffer h = u64 (code_buffer + h.offset + 2 ^ 64 - h.align)

-- `& (~0xFFFFE00000000FFF)`: bits 12 to 44.
unfoldable pub frame_of : ℕ → ℕ
frame_of address = address / 2 ^ 12 % 2 ^ 33 * 2 ^ 12

-- The loop over the pages at `i`, with so many left. The header at `elf_phdr` is read again for
-- each page, and the frame does not depend on `i`.
unfoldable pub map_pages : ℕ → ℕ → ℕ → ℕ → Cmd (Unit {0})
map_pages zero i code_buffer elf_phdr s = some (tt, s)
map_pages (suc left) i code_buffer elf_phdr s =
    let h = program_header s.mem elf_phdr in
    (do
      map_4kb_page (u64 (h.vaddr + 0x1000 * i)) (frame_of (load_address code_buffer h))
      map_pages left (i + 1) code_buffer elf_phdr)
      s

-- A call of memcpy on this memory. Where the destination leads to the page tables by the physical
-- map, they do not change here.
unfoldable pub copy : ℕ → ℕ → ℕ → Cmd (Unit {0})
copy dst src size s = elim (memcpy dst src size s.mem) [
  | none ↦ none
  | some m ↦ some (tt, record s { mem = m })
]

-- The body of the `if` for a segment to load, up to the addition to `*kernel_size`. `num_pages` is
-- read after the segment has been copied.
unfoldable pub load_segment : ℕ → ℕ → ℕ → Cmd (Unit {0})
load_segment elf_file code_buffer elf_phdr s =
    let h = program_header s.mem elf_phdr in
    (do
      copy (load_address code_buffer h) (u64 (elf_file + h.offset)) h.filesz
      λ t.
          map_pages (align_up_4kb (program_header t.mem elf_phdr).memsz / 0x1000) 0 code_buffer
            elf_phdr t)
      s

-- One round of the `do` loop: `*kernel_size` afterwards.
unfoldable pub load_header : ℕ → ℕ → ℕ → ℕ → Cmd ℕ
load_header elf_file code_buffer elf_phdr kernel_size s =
    if (program_header s.mem elf_phdr).type == 1
    then (do
      prints (print_load (program_header s.mem elf_phdr))
      load_segment elf_file code_buffer elf_phdr
      λ t. some (u64 (kernel_size + (program_header t.mem elf_phdr).memsz), t))
        s
    else some (kernel_size, s)

-- The loop at `phdr_counter`, on fuel. The test stands at the end of a round.
unfoldable pub map_kernel_loop : ℕ → ℕ → ℕ → ℕ → ℕ → ℕ → Cmd ℕ
map_kernel_loop zero elf_file code_buffer phdr_it phdr_counter kernel_size s = none
map_kernel_loop (suc f) elf_file code_buffer phdr_it phdr_counter kernel_size s =
    (load_header elf_file code_buffer phdr_it kernel_size >>= λ size t.
    let rest =
      map_kernel_loop f elf_file code_buffer
        (u64 (phdr_it + program_header_table_entry_size t.mem elf_file)) (phdr_counter + 1) size
        t in
    if ltb (phdr_counter + 1) (program_header_table_entry_count t.mem elf_file)
    then rest
    else some (size, t))
      s

-- The entry point, and `*kernel_size` afterwards. The count has 16 bits, so 2 ^ 16 rounds are enough.
unfoldable pub map_kernel : ℕ → ℕ → ℕ → ℕ → Cmd (ℕ × ℕ)
map_kernel fuel elf_file code_buffer kernel_size = do
  prints print_title
  size ← λ s.
      map_kernel_loop fuel elf_file code_buffer
        (u64 (elf_file + program_header_table_position s.mem elf_file)) 0 kernel_size s
  λ s. some ((entry_point s.mem elf_file, size), s)
