-- ===== src/Boot.antt =====
-- cboot_main and halt of bootloader/cboot/src/main.c, over bootloader/cboot/include/bootinfo.h. The
-- state is that of Paging, to which come the table of interrupts and the machine behind the ports.
pub mod Backed
pub mod Example
pub mod Kernel
pub mod KernelExample
pub mod Lines
pub mod Load
pub mod Main
pub mod Map
pub mod Prepare
pub mod Loaded
pub mod Room
pub mod Running
pub mod Sent
pub mod Space
pub mod Start
pub mod Steps
mod KernelTests
mod Tests
use learning_osdev.Base.{
  zero, suc, ◌/◌, leb, Bool, true, false, length, drop, ℕ, ◌+◌, ◌*◌, ◌-◌, ◌%◌, ◌^◌, ◌==◌, ◌&&◌, not,
  ltb, if◌then◌else◌, codes, List, [], ◌∷◌, Option, none, some, u64,
}
use learning_osdev.Mem.{Memory, load64}
use learning_osdev.Str.{Bytes, text, from, memcmp}
use learning_osdev.Print.Printer.{say}
use learning_osdev.Print.Query.{Query}
use learning_osdev.Ports.{Ports}
use learning_osdev.Serial.{init_serial, serial_write_char}
use learning_osdev.Interrupts.{Idt, Idtr, setup_interrupts}
use learning_osdev.Interrupts.Handlers.{Handler}
use learning_osdev.Paging.{Paging, Cmd, pure, ◌>>=◌, ◌>>◌, prints, clear}
use learning_osdev.Paging.Walk.{Translation, unmapped, reserved, page, translate}
use learning_osdev.Paging.Physical.{setup_physical_map}
use learning_osdev.Bios.{Memmap, scan_bios_memmap, allocate_space_for_kernel}
use learning_osdev.Gpt.{starting_lba, find_partition_by_name}
use learning_osdev.Boot.Lines.{print_hello, print_found, print_size}
use learning_osdev.Ustar.{Disk, ustar_get_num_sectors, ustar_load_file}
use learning_osdev.Elf.{load32}
use learning_osdev.Loader.{map_kernel}

pub record BootInfo : Type 0 where
  pub bios_memory_map_address : ℕ
  pub kernel_paddr : ℕ
  pub kernel_size : ℕ

-- How cboot_main ends: in the loop of halt, or with the jump to the kernel. `astray` is the end of
-- the model: a store that the processor refuses, as nothing is mapped there, or that hits the first
-- megabyte, where the code, the stack and the page tables lie.
pub data Outcome : Type 0 where
  halted astray : Outcome
  started : ℕ → BootInfo → Outcome

-- The regions in memory, by their index.
unfoldable pub memmap_at : Memory → Memmap
memmap_at m i =
    let region = 0x500 + 24 * i in
    record {
      base_address = load64 m region;
      map_size = load64 m (region + 8);
      type = load32 m (region + 16);
      acpi3 = load32 m (region + 20);
    }

-- A call of a function that prints and returns a value.
abbrev pub asks : {A : Type 0} → Query A → Cmd A
asks q s = elim (q s.console) [ none ↦ none | some (a, k) ↦ some (a, record s { console = k }) ]

unfoldable pub halt : Cmd Outcome
halt = do prints (say "Halting"); pure halted

abbrev pub partition_name : List ℕ
partition_name = codes "OSDEV Root Partition"

abbrev pub kernel_path : List ℕ
kernel_path = codes "/sys/kernel.elf"

abbrev pub elf_signature : List ℕ
elf_signature = 0x7F ∷ 0x45 ∷ 0x4C ∷ 0x46 ∷ []

-- 256 MiB, and the 160 MiB of them in front of the file.
abbrev pub kernel_space : ℕ
kernel_space = 268435456

abbrev pub code_space : ℕ
code_space = 167772160

-- An address that the space for the kernel can lie at: mapped, above the first megabyte and above the
-- page tables.
abbrev pub backed_at : Paging → Translation → Bool
backed_at s unmapped = false
backed_at s reserved = false
backed_at s (page k a) = leb 0x100000 a && leb s.it a

-- So many pages from `v` on.
unfoldable pub are_backed : ℕ → Paging → ℕ → Bool
are_backed zero s v = true
are_backed (suc left) s v = backed_at s (translate s v) && are_backed left s (u64 (v + 0x1000))

-- Every page of the space at `exe`, up to its last byte.
unfoldable pub is_backed : ℕ → Paging → Bool
is_backed exe s =
    are_backed (kernel_space / 0x1000) s exe
    && backed_at s (translate s (u64 (exe + (kernel_space - 1))))

-- The memory with what a callee left in the buffer at `p`.
unfoldable pub put_buffer : ℕ → Bytes → Memory → Memory
put_buffer p b m a = if ltb a p then m a else b (a - p)

module _ (fuel : ℕ) (disk : Disk) where
  -- A call of ustar_load_file with a buffer in this memory.
  unfoldable pub load_file : ℕ → ℕ → Cmd ℕ
  load_file lba kaddr s =
      elim (ustar_load_file disk lba (text kernel_path) fuel (from kaddr s.mem)) [
        | none ↦ none
        | some (bytes_loaded, b) ↦ some (bytes_loaded, record s { mem = put_buffer kaddr b s.mem })
      ]

  -- From the comparison of the signature on.
  unfoldable pub start_kernel : ℕ → ℕ → Cmd Outcome
  start_kernel kaddr exe s =
      let neq = memcmp (from kaddr s.mem) (text elf_signature) 4 in
      (if neq == 0
          then (do
            (entry_point, kernel_size) ← map_kernel fuel kaddr exe 0
            prints (say "KERNEL MAPPED, JUMPING TO KERNEL\n")
            pure (
                started entry_point (record {
                  bios_memory_map_address = 0x500;
                  kernel_paddr = exe % 2 ^ 45;
                  kernel_size = kernel_size;
                })))
          else (do prints (say "ERR: ELF signature not matching\n"); halt))
        s

  -- From the test of `kaddr` on, with the address of the space.
  unfoldable pub read_kernel : ℕ → ℕ → Cmd Outcome
  read_kernel lba exe =
      let kaddr = u64 (exe + code_space) in
      if exe == 0 then (do prints (say "Not Enough Memory to Load Kernel\n"); halt) else (do
        prints (say "Loading kernel\n")
        bytes_loaded ← load_file lba kaddr
        if bytes_loaded == 0
            then (do prints (say "Error loading kernel file"); halt)
            else do prints (say "Loaded Kernel\n"); start_kernel kaddr exe)

  -- From the choice of a region on. The memory is flat: the stores and reads in the space are what
  -- they are on the machine where the tables map all of it, which is asked before the first of them.
  unfoldable pub load_kernel : ℕ → Cmd Outcome
  load_kernel lba = do
    kaddr ← λ s. elim (allocate_space_for_kernel fuel (memmap_at s.mem) kernel_space) [
      | none ↦ none
      | some p ↦ some (p, s)
    ]
    backed ← λ s. some (is_backed kaddr s, s)
    if not backed then pure astray else do clear kaddr kernel_space; read_kernel lba kaddr

  -- From the call of setup_physical_map on. If its test fails, it halts.
  unfoldable pub find_kernel : Bytes → ℕ → Cmd Outcome
  find_kernel gpte total_mem = do
    neq ← setup_physical_map total_mem
    if not (neq == 0) then pure halted else do
      (isfound, sectors) ← λ s.
          elim (ustar_get_num_sectors disk (starting_lba gpte) (text kernel_path) fuel 0) [
            | none ↦ none
            | some r ↦ some (r, s)
          ]
      prints (print_size isfound (u64 (sectors * 512)))
      load_kernel (starting_lba gpte)

  -- What follows init_serial. `stack` is what stands in the buffers on the stack.
  unfoldable pub boot : Bytes → Cmd Outcome
  boot stack = do
    prints print_hello
    total_mem ← λ s. asks (scan_bios_memmap fuel (memmap_at s.mem)) s
    gpte ← asks (find_partition_by_name fuel disk stack (text partition_name))
    prints (print_found gpte)
    find_kernel gpte total_mem

-- The whole machine. `device` is the chip of the serial line; the drive is `disk`.
pub record Machine (D : Type 0) : Type 0 where
  pub paging : Paging
  pub idt : Idt
  pub idtr : Idtr
  pub device : D

module _ {D : Type 0} (ports : Ports D) where
  -- The calls of serial_write_char for the bytes that putc sends, in order. `none` is a wait that
  -- has not ended when the fuel is gone.
  unfoldable pub serial_write_bytes : ℕ → List ℕ → D → Option D
  serial_write_bytes fuel [] d = some d
  serial_write_bytes fuel (c ∷ cs) d = elim (serial_write_char ports fuel c d) [
    | none ↦ none
    | some e ↦ serial_write_bytes fuel cs e
  ]

  -- Nothing but these calls touches the chip after init_serial, so they are made for all bytes of a
  -- run at once; a run in which one of them does not end does not end.
  unfoldable pub cboot_main :
      (Handler → ℕ) → ℕ → ℕ → Disk → Bytes → Machine D → Option (Outcome × Machine D)
  cboot_main address base fuel disk stack s =
      let table = setup_interrupts address base s.idt in
      let line = init_serial ports s.device in
      elim (boot fuel disk stack s.paging) [
        | none ↦ none
        | some (o, p) ↦
            elim (serial_write_bytes fuel (drop (length s.paging.console.serial) p.console.serial)
              line.1) [
                | none ↦ none
                | some d ↦
                    some (o, record { paging = p; idt = table.0; idtr = table.1; device = d })
              ]
      ]
