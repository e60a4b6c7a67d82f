-- ===== src/Boot/KernelTests.antt =====
-- cboot_main where the kernel is found.
use learning_osdev.Base.{
  sym, ltb, ◌/◌, ℕ, ◌+◌, ◌≤◌, ◌<◌, ◌≡◌, refl, arith, ◌==◌, List, [], ◌∷◌, true,
}
use learning_osdev.Mem.{load64}
use learning_osdev.Paging.Physical.Example as Example
use learning_osdev.Gpt.{starting_lba, sizeof_partition_entry, gpt_header, gpt_entries}
use learning_osdev.Gpt.Partitions as Partitions
use learning_osdev.Ustar.{sectors_read_into, sectors_read, sectors_length}
use learning_osdev.Boot.Prepare.{IsMachine, partition}
use learning_osdev.Str.{text}
use learning_osdev.Base.{codes, ◌++◌, ◌==◌, if◌then◌else◌}
use learning_osdev.Ustar.{Disk}
use learning_osdev.Ustar.Archive.{IsArchive, end, entry}
use learning_osdev.Ustar.Example.{header_of}
use learning_osdev.Boot.Loaded.{kernel_memory}
use learning_osdev.Boot.KernelExample.{kernel-IsHeader, exe}
use learning_osdev.Boot.{cboot_main}
use learning_osdev.Boot.{Machine}
use learning_osdev.Boot.Example.{address, machine_with, chip-HasLine}
use learning_osdev.Serial.Example.{Chip, ports, sound, uart}
use learning_osdev.Boot.Main.{prepared_text, IsEnd, cboot_main-not_elf}
use learning_osdev.Boot.Steps.{told}
use learning_osdev.Boot.{halted}
use learning_osdev.Paging.{Paging}
use learning_osdev.Boot.Prepare.{boot_lem}
use learning_osdev.Boot.Load.{HasElfSignature}
use learning_osdev.Boot.KernelExample.{
  kernel_name, kernel_entry, lower, lower-above, free, paging, paging-IsMap, kaddr,
}

Below : List (ℕ × ℕ) → ℕ → Type 0
Below [] a = Unit {0}
Below ((offset, value) ∷ rest) a = (offset + 8 ≤ a) × Below rest a

abbrev machine : Machine Chip
machine = machine_with paging

-- A file of zeroes in place of the kernel.
abbrev plain_disk : Disk
plain_disk n i = if n == 0 then header_of b'0' kernel_name 0x1010 i else 0

plain-IsArchive : IsArchive plain_disk 0 0 (kernel_entry ∷ [])
unfolding text
plain-IsArchive =
    entry {seeker = 0} (omega arith) kernel-IsHeader
      (end {seeker = 10} (omega arith) (λ h. absurd (ground (arith, h 0 (omega arith)))))

plain-byte : (j : ℕ) → j < 16 → gpt_entries plain_disk (λ _. 0) j ≡ 0
unfolding sectors_read_into sectors_length sectors_read
plain-byte k lt =
    let inside : ltb k 4096 ≡ true = ground arith in
    let sector : 2 + k / 512 ≡ 2 = omega arith in rw (inside, sector) refl

plain-IsEntries :
    Partitions.IsEntries
      (sizeof_partition_entry (gpt_header plain_disk (λ _. 0)))
      (gpt_entries plain_disk (λ _. 0))
      0
      []
plain-IsEntries =
    Partitions.end {ptr = 0}
      (λ j lt. let e : 0 + j ≡ j = omega arith in rw e (sym (plain-byte j lt)))

plain-IsMachine :
    IsMachine 30 plain_disk
      (λ _. 0)
      (Example.boot_owner lower lower-above)
      paging
      (free ∷ [])
      []
      (kernel_entry ∷ [])
unfolding load64
plain-IsMachine = record {
  tables = Example.boot-IsTables lower lower-above;
  tables_room = omega arith;
  identity = Example.boot-IsIdentity lower lower-above;
  map = paging-IsMap;
  map_room = omega arith;
  map_enough = omega arith;
  some_memory = omega arith;
  not_too_much = omega arith;
  entries = plain-IsEntries;
  entries_enough = omega arith;
  name_enough = omega arith;
  archive = plain-IsArchive;
  archive_enough = omega arith;
}

abbrev plain_ready : Paging
plain_ready =
    (boot_lem 30 plain_disk (λ _. 0) paging (free ∷ []) [] (kernel_entry ∷ [])
      plain-IsMachine).after

abbrev plain_first : ℕ
plain_first = 1 + starting_lba (partition plain_disk (λ _. 0) [])

not_signed : ¬ HasElfSignature (kernel_memory plain_disk plain_first 0x1010 exe paging.mem) kaddr
unfolding kernel_memory text load64
not_signed h = absurd (ground (arith, h 0 (omega arith)))

cboot_main-not_elf_example :
    IsEnd ports sound uart address
      (λ h. omega arith)
      0x3000
      30
      plain_disk
      (λ _. 0)
      machine
      (free ∷ [])
      []
      (kernel_entry ∷ [])
      plain-IsMachine
      chip-HasLine
      halted
      (told
        (((codes "Loading kernel\n" ++ codes "Loaded Kernel\n")
            ++ codes "ERR: ELF signature not matching\n")
          ++ codes "Halting")
        (record plain_ready {
          mem = kernel_memory plain_disk plain_first 0x1010 exe plain_ready.mem;
        }))
      (prepared_text (free ∷ []) plain_disk (λ _. 0) [] (kernel_entry ∷ [])
        ++ (((codes "Loading kernel\n" ++ codes "Loaded Kernel\n")
              ++ codes "ERR: ELF signature not matching\n")
            ++ codes "Halting"))
      (cboot_main ports address 0x3000 30 plain_disk (λ _. 0) machine)
cboot_main-not_elf_example =
    cboot_main-not_elf ports sound uart address (λ h. omega arith) 0x3000 30 plain_disk (λ _. 0)
      machine (free ∷ []) [] (kernel_entry ∷ []) plain-IsMachine chip-HasLine free
      (record { chosen = refl; within = omega arith; tables_low = omega arith }) (omega arith, tt) 1
      0x1010 refl (λ e. omega arith) not_signed
