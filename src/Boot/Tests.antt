-- ===== src/Boot/Tests.antt =====
-- cboot_main on a small machine.
use learning_osdev.Base.{
  ℕ, ◌*◌, ◌^◌, ◌≤◌, ◌<◌, ◌≡◌, refl, arith, ◌==◌, if◌then◌else◌, [], ◌∷◌, codes, ◌++◌,
}
use learning_osdev.Mem.{Memory, load64, store64}
use learning_osdev.Str.{text}
use learning_osdev.Elf.{load32}
use learning_osdev.Paging.{Paging}
use learning_osdev.Paging.Physical.Example as Example
use learning_osdev.Bios.{BiosMemoryRegion}
use learning_osdev.Bios.Regions.{IsMap, end, region}
use learning_osdev.Ustar.{Disk, sectors_read, sectors_read_into}
use learning_osdev.Ustar.Archive.{IsArchive}
use learning_osdev.Ustar.Archive as Archive
use learning_osdev.Gpt.{sizeof_partition_entry, gpt_header, gpt_entries}
use learning_osdev.Gpt.Partitions as Partitions
use learning_osdev.Boot.{Machine, memmap_at, halted, boot, cboot_main}
use learning_osdev.Boot.Example.{address, machine_with, chip-HasLine}
use learning_osdev.Boot.Room.{HasSpace}
use learning_osdev.Serial.Example.{Chip, ports, sound, uart}
use learning_osdev.Boot.Steps.{told}
use learning_osdev.Boot.Loaded.{cleared_memory}
use learning_osdev.Boot.Prepare.{IsMachine, IsPrepared, boot_lem}
use learning_osdev.Boot.Space.{IsMappedSpace, boot-IsMappedSpace}
use learning_osdev.Boot.Main.{prepared_text, IsEnd, cboot_main-no_file}

-- A memory map with one free region from 1 MiB on, of so many times 16 MiB.
abbrev lower : ℕ → Memory
lower size a = if a == 0x502 then 0x10 else if a == 0x50B then size else if a == 0x510 then 1 else 0

lower-above : (size a : ℕ) → 0x1000 ≤ a → lower size a ≡ 0
lower-above size a le = ground arith

abbrev free : ℕ → BiosMemoryRegion
free size = record { base_address = 0x100000; map_size = size * 2 ^ 24; type = 1; acpi3 = 0 }

abbrev paging : ℕ → Paging
paging size = Example.boot (lower size) (lower-above size)

small-IsMap : IsMap (memmap_at (paging 1).mem) 0 (free 1 ∷ [])
unfolding memmap_at load64 load32 store64
small-IsMap = region (λ e. ground arith) (end refl)

large-IsMap : IsMap (memmap_at (paging 32).mem) 0 (free 32 ∷ [])
unfolding memmap_at load64 load32 store64
large-IsMap = region (λ e. ground arith) (end refl)

-- A drive of zeroes has no partition and no file.
abbrev blank : Disk
blank n i = 0

blank-IsArchive : IsArchive blank 0 0 []
blank-IsArchive =
    Archive.end {seeker = 0} (omega arith)
      (λ h. unfold text in absurd (ground (arith, h 0 (omega arith))))

blank-IsEntries :
    Partitions.IsEntries
      (sizeof_partition_entry (gpt_header blank (λ _. 0)))
      (gpt_entries blank (λ _. 0))
      0
      []
unfolding sectors_read_into sectors_read
blank-IsEntries = Partitions.end {ptr = 0} (λ j lt. ground arith)

paging-IsMachine :
    (size : ℕ)
    → IsMap (memmap_at (paging size).mem) 0 (free size ∷ [])
    → 0 < size
    → size < 1000
    → IsMachine 30 blank
        (λ _. 0)
        (Example.boot_owner (lower size) (lower-above size))
        (paging size)
        (free size ∷ [])
        []
        []
unfolding load64
paging-IsMachine size map some_size few = record {
  tables = Example.boot-IsTables (lower size) (lower-above size);
  tables_room = omega arith;
  identity = Example.boot-IsIdentity (lower size) (lower-above size);
  map = map;
  map_room = omega arith;
  map_enough = omega arith;
  some_memory = omega arith;
  not_too_much = omega arith;
  entries = blank-IsEntries;
  entries_enough = omega arith;
  name_enough = omega arith;
  archive = blank-IsArchive;
  archive_enough = omega arith;
}

abbrev machine : ℕ → Machine Chip
machine size = machine_with (paging size)

abbrev small-IsMachine :
    IsMachine 30 blank
      (λ _. 0)
      (Example.boot_owner (lower 1) (lower-above 1))
      (paging 1)
      (free 1 ∷ [])
      []
      []
small-IsMachine = paging-IsMachine 1 small-IsMap (omega arith) (omega arith)

abbrev large-IsMachine :
    IsMachine 30 blank
      (λ _. 0)
      (Example.boot_owner (lower 32) (lower-above 32))
      (paging 32)
      (free 32 ∷ [])
      []
      []
large-IsMachine = paging-IsMachine 32 large-IsMap (omega arith) (omega arith)

-- The states when the loads begin.
abbrev small_ready : Paging
small_ready = (boot_lem 30 blank (λ _. 0) (paging 1) (free 1 ∷ []) [] [] small-IsMachine).after

abbrev large_ready : Paging
large_ready = (boot_lem 30 blank (λ _. 0) (paging 32) (free 32 ∷ []) [] [] large-IsMachine).after

large-HasSpace : HasSpace (paging 32) (free 32 ∷ []) (free 32)
large-HasSpace = record { chosen = refl; within = omega arith; tables_low = omega arith }

cboot_main-no_file_example :
    IsEnd ports sound uart address
      (λ h. omega arith)
      0x3000
      30
      blank
      (λ _. 0)
      (machine 32)
      (free 32 ∷ [])
      []
      []
      large-IsMachine
      chip-HasLine
      halted
      (told
        ((codes "Loading kernel\n" ++ codes "Error loading kernel file") ++ codes "Halting")
        (record large_ready { mem = cleared_memory 0xFFFF800000100000 large_ready.mem }))
      (prepared_text (free 32 ∷ []) blank (λ _. 0) [] []
        ++ ((codes "Loading kernel\n" ++ codes "Error loading kernel file") ++ codes "Halting"))
      (cboot_main ports address 0x3000 30 blank (λ _. 0) (machine 32))
cboot_main-no_file_example =
    cboot_main-no_file ports sound uart address (λ h. omega arith) 0x3000 30 blank (λ _. 0)
      (machine 32) (free 32 ∷ []) [] [] large-IsMachine chip-HasLine (free 32) large-HasSpace tt
      refl

boot_lem_example :
    IsPrepared 30 blank
      (λ _. 0)
      (paging 32)
      (free 32 ∷ [])
      []
      []
      (boot 30 blank (λ _. 0) (paging 32))
boot_lem_example = boot_lem 30 blank (λ _. 0) (paging 32) (free 32 ∷ []) [] [] large-IsMachine

boot-IsMappedSpace_example :
    IsMappedSpace 30 blank 0 0xFFFF800000100000 0x100000 (boot 30 blank (λ _. 0) (paging 32))
unfolding load64
boot-IsMappedSpace_example =
    boot-IsMappedSpace 30 blank (λ _. 0) (paging 32) (free 32 ∷ []) [] [] large-IsMachine (free 32)
      refl (omega arith)
