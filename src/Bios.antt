-- ===== src/Bios.antt =====
-- The memory map that the BIOS left: scan_bios_memmap and allocate_space_for_kernel of
-- bootloader/cboot/src/main.c, over bootloader/cboot/include/bios_memory_map.h.
pub mod Regions
pub mod Space
mod Tests
use learning_osdev.Base.{
  ℕ, zero, suc, ◌+◌, ◌*◌, ◌/◌, ◌%◌, ◌^◌, ◌==◌, if◌then◌else◌, u64, ltb, Option, none, some,
}
use learning_osdev.Print.{putd, putx64}
use learning_osdev.Print.Printer.{Printer, ◌>>◌, quiet, char, say}
use learning_osdev.Print.Query.{Query, answer, after, ◌>>=◌}
use learning_osdev.Paging.{physical_to_virtual_pointer}

pub record BiosMemoryRegion : Type 0 where
  pub base_address : ℕ
  pub map_size : ℕ
  pub type : ℕ
  pub acpi3 : ℕ

abbrev pub bios_map_free_memory : ℕ
bios_map_free_memory = 1

abbrev pub bios_map_reserved : ℕ
bios_map_reserved = 2

abbrev pub bios_map_acpi_reclaim : ℕ
bios_map_acpi_reclaim = 3

abbrev pub bios_map_acpi_nvs : ℕ
bios_map_acpi_nvs = 4

abbrev pub bios_bad_memory : ℕ
bios_bad_memory = 5

-- The regions at BIOS_MEMORY_MAP_LOCATION, by their index.
abbrev pub Memmap : Type 0
Memmap = ℕ → BiosMemoryRegion

-- What the `switch` prints.
unfoldable pub print_type : ℕ → Printer
print_type type =
    if type == bios_map_free_memory
    then say " - FREE MEMORY (1)"
    else if type == bios_map_reserved
    then say " - RESERVED (2)"
    else if type == bios_map_acpi_reclaim
    then say " - ACPI RECLAIM (3)"
    else if type == bios_map_acpi_nvs
    then say " - ACPI NVS (4)"
    else if type == bios_bad_memory
    then say " - BAD MEMORY (5)"
    else quiet

unfoldable pub print_region : BiosMemoryRegion → Printer
print_region r = do
  say "0x"
  putx64 r.base_address
  say " - 0x"
  putx64 (u64 (r.base_address + r.map_size))
  print_type r.type
  char b'\n'

-- The loop at the region `i`, with the total so far.
unfoldable pub scan_loop : ℕ → ℕ → Memmap → ℕ → Query ℕ
scan_loop zero i memmap total_memory = λ k. none
scan_loop (suc f) i memmap total_memory =
    let r = memmap i in
    let rest = after (print_region r) (
      scan_loop f (i + 1) memmap (
        if r.type == bios_map_free_memory
        then u64 (total_memory + r.map_size)
        else total_memory)) in
    if r.type == 0 then answer total_memory else rest

unfoldable pub print_total : ℕ → Printer
print_total total_memory = do say "Total Size of Usable Memory: "; putd total_memory; char b'\n'

unfoldable pub scan_bios_memmap : ℕ → Memmap → Query ℕ
scan_bios_memmap fuel memmap = do
  total_memory ← scan_loop fuel 0 memmap 0
  after (print_total total_memory) (answer total_memory)

abbrev pub minbase : ℕ
minbase = 0x100000

-- The pointer, which is 0 for no region that fits.
unfoldable pub allocate_loop : ℕ → ℕ → Memmap → ℕ → Option ℕ
allocate_loop zero i memmap mem_size = none
allocate_loop (suc f) i memmap mem_size =
    let r = memmap i in
    let rest = allocate_loop f (i + 1) memmap mem_size in
    if r.type == 0
    then some 0
    else if ltb r.base_address minbase
    then rest
    else if ltb r.map_size mem_size
    then rest
    else if r.type == bios_map_free_memory
    then some (physical_to_virtual_pointer r.base_address)
    else rest

unfoldable pub allocate_space_for_kernel : ℕ → Memmap → ℕ → Option ℕ
allocate_space_for_kernel fuel memmap mem_size = allocate_loop fuel 0 memmap mem_size
