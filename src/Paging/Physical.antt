-- ===== src/Paging/Physical.antt =====
-- setup_physical_map of bootloader/cboot/src/paging.c: the mapping of physical memory by pages of
-- 1 GiB from 0xFFFF800000000000 on.
pub mod Example
pub mod Fill
pub mod Map
pub mod Pointer
pub mod Steps
mod Tables
mod Tests
use learning_osdev.Base.{
  ◌==◌, if◌then◌else◌, ℕ, zero, suc, ◌+◌, ◌-◌, ◌*◌, ◌/◌, ◌%◌, ◌^◌, Option, none, some, u64,
}
use learning_osdev.Mem.{Memory}
use learning_osdev.Str.{Bytes, memcmp}
use learning_osdev.Print.Printer.{Printer, say}
use learning_osdev.Paging.{
  prints, Paging, Cmd, pure, ◌>>=◌, ◌>>◌, p4table, pagetable_size, set_present, set_writable,
  set_huge_page, set_pte_address, l3_index, l4_index, set_entry, clear, load_newpagetable,
  new_page_table,
}
use learning_osdev.Paging.Walk.{Translation, unmapped, reserved, page, translate}

-- The first address of the mapping.
abbrev pub physical_base : ℕ
physical_base = 0xFFFF800000000000

-- The loop at `i`, with so many rounds left. The result is `virtaddr.raw` afterwards.
unfoldable pub physical_map_loop : ℕ → ℕ → ℕ → ℕ → Cmd ℕ
unfolding set_entry
physical_map_loop zero i p3table virtaddr = pure virtaddr
physical_map_loop (suc left) i p3table virtaddr = do
  set_entry p3table (l3_index virtaddr)
      (set_huge_page (set_present (set_writable (set_pte_address 0 (u64 (i * 0x40000000))))))
  physical_map_loop left (i + 1) p3table (u64 (virtaddr + 0x40000000))

-- The byte that a read from a virtual address gives. Where nothing is mapped the read would fault.
abbrev pub byte_of : Memory → Translation → ℕ
byte_of m (page k a) = m a
byte_of m unmapped = 0
byte_of m reserved = 0

unfoldable pub virtual_bytes : Paging → ℕ → Bytes
virtual_bytes s p i = byte_of s.mem (translate s (u64 (p + i)))

-- What the test at the end prints.
unfoldable pub print_test : ℕ → Printer
print_test neq =
    if neq == 0
    then say "Physical Page Table mapping is correct\n"
    else say "Page Table mapping is suspiciously incorrect!\n"

-- The result is `neq`, the outcome of the test at the end. If it is not 0 the code halts.
unfoldable pub setup_physical_map : ℕ → Cmd ℕ
setup_physical_map total_memsize = do
  p3table ← new_page_table
  clear p3table pagetable_size
  virtaddr ←
      physical_map_loop (u64 (total_memsize + 0x3fffffff) / 0x40000000) 0 p3table physical_base
  set_entry p4table (l4_index virtaddr) (set_writable (set_present (set_pte_address 0 p3table)))
  load_newpagetable p4table
  neq ← λ s. some (memcmp (virtual_bytes s 0) (virtual_bytes s physical_base) 1048576, s)
  prints (print_test neq)
  pure neq
