-- ===== src/Bios/Tests.antt =====
-- The loops over a small memory map.
use learning_osdev.Base.{◌≡◌, refl, arith, [], ◌∷◌, some, ◌==◌, if◌then◌else◌}
use learning_osdev.Paging.{physical_to_virtual_pointer}
use learning_osdev.Bios.{BiosMemoryRegion, Memmap, scan_bios_memmap, allocate_space_for_kernel}
use learning_osdev.Bios.Regions.{IsMap, end, region, map_text, scan_bios_memmap_lem}
use learning_osdev.Bios.Space.{allocate_space_for_kernel_lem}
use learning_osdev.Print.{Console}
use learning_osdev.Print.Text.{shown}

abbrev low_memory : BiosMemoryRegion
low_memory = record { base_address = 0; map_size = 0x9FC00; type = 1; acpi3 = 1 }

abbrev reserved : BiosMemoryRegion
reserved = record { base_address = 0xF0000; map_size = 0x10000; type = 2; acpi3 = 1 }

abbrev high_memory : BiosMemoryRegion
high_memory = record { base_address = 0x100000; map_size = 0x1FEE0000; type = 1; acpi3 = 1 }

abbrev small_map : Memmap
small_map i =
    if i == 0
    then low_memory
    else if i == 1
    then reserved
    else if i == 2
    then high_memory
    else record { base_address = 0; map_size = 0; type = 0; acpi3 = 0 }

small_map-IsMap : IsMap small_map 0 (low_memory ∷ reserved ∷ high_memory ∷ [])
small_map-IsMap =
    region {i = 0} (λ e. ground arith)
      (region {i = 1} (λ e. ground arith) (region {i = 2} (λ e. ground arith) (end {i = 3} refl)))

abbrev console : Console
console = record {
  screen = record {
    vga_buffer = λ n. record { character = b' '; colour = 7 };
    column_counter = 0;
    foreground = 7;
    background = 0;
  };
  serial = [];
}

scan_bios_memmap_lem_example :
    scan_bios_memmap 4 small_map console
    ≡ some (0x1FF7FC00, shown (map_text (low_memory ∷ reserved ∷ high_memory ∷ [])) console)
scan_bios_memmap_lem_example =
    scan_bios_memmap_lem small_map (low_memory ∷ reserved ∷ high_memory ∷ []) 4 console
      small_map-IsMap (omega arith) (omega arith)

allocate_space_for_kernel_lem_example :
    allocate_space_for_kernel 4 small_map 268435456 ≡ some (physical_to_virtual_pointer 0x100000)
allocate_space_for_kernel_lem_example =
    allocate_space_for_kernel_lem small_map (low_memory ∷ reserved ∷ high_memory ∷ []) 4 268435456
      small_map-IsMap (omega arith)
