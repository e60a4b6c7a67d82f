-- ===== src/Boot/Running.antt =====
-- cboot_main of bootloader/cboot/src/main.c as a whole, on a machine with a kernel on its drive.
use learning_osdev.Base.{ℕ, ◌+◌, ◌*◌, ◌%◌, ◌^◌, ◌<◌, ◌≡◌, List, ◌++◌, codes, Option}
use learning_osdev.Mem.{Memory}
use learning_osdev.Str.{Bytes}
use learning_osdev.Ports.{Ports}
use learning_osdev.Serial.Uart.{IsUart}
use learning_osdev.Interrupts.Handlers.{Handler}
use learning_osdev.Paging.{Paging}
use learning_osdev.Paging.Walk.{translate, page}
use learning_osdev.Paging.Invariant.{Owner, IsTables}
use learning_osdev.Bios.{BiosMemoryRegion}
use learning_osdev.Ustar.{Disk}
use learning_osdev.Ustar.Archive.{Entry}
use learning_osdev.Gpt.{starting_lba}
use learning_osdev.Elf.{ProgramHeader, entry_point}
use learning_osdev.Elf.Text.{title}
use learning_osdev.Loader.{frame_of}
use learning_osdev.Loader.Pages.{page_of}
use learning_osdev.Loader.Segment.{pages}
use learning_osdev.Loader.Layout.{size_after, text_after, source, target}
use learning_osdev.Boot.{Outcome, started, Machine, code_space}
use learning_osdev.Boot.Load.{space_in}
use learning_osdev.Boot.Start.{information}
use learning_osdev.Boot.Prepare.{partition, IsMachine}
use learning_osdev.Boot.Main.{HasLine, prepared_text, IsEnd}
use learning_osdev.Boot.Kernel.{file_state, HasKernel}

module _ {D : Type 0} (ports : Ports D) (echo : ℕ → ℕ) (uart : IsUart ports echo)
    (address : Handler → ℕ) (addresses : (h : Handler) → address h < 2 ^ 64) (base fuel : ℕ)
    (disk : Disk) (stack : Bytes) {own : Owner} (m : Machine D) (rs : List BiosMemoryRegion)
    (names : List (List ℕ)) (es : List Entry)
    (x : IsMachine fuel disk stack own m.paging rs names es)
    (serial_line : HasLine uart fuel m.device) (r : BiosMemoryRegion)
    {seeker size file_end top count : ℕ} {header : ℕ → ProgramHeader} {place : ℕ → ℕ}
    (h : HasKernel disk
      (starting_lba (partition disk stack names))
      m.paging
      rs
      es
      r
      seeker
      size
      file_end
      top
      count
      header
      place) where
  -- The memory with the file in its space.
  abbrev pub file_memory : Memory
  file_memory =
      (file_state disk (seeker + starting_lba (partition disk stack names)) size (space_in r)
        m.paging).mem

  -- The jump to the kernel.
  abbrev pub jump : Outcome
  jump =
      started (entry_point file_memory (space_in r + code_space))
        (information r.base_address (size_after header count 0 0))

  -- What is printed of the loads.
  abbrev pub kernel_text : List ℕ
  kernel_text =
      ((codes "Loading kernel\n" ++ codes "Loaded Kernel\n") ++ text_after header count 0 title)
      ++ codes "KERNEL MAPPED, JUMPING TO KERNEL\n"

  -- `result` is the jump to the kernel, with each segment copied from the file and mapped.
  pub record IsRunning (result : Option (Outcome × Machine D)) : Type 0 where
    pub last : Paging
    pub ended :
        IsEnd ports echo uart address addresses base fuel disk stack m rs names es x serial_line
          jump last
          (prepared_text rs disk stack names es ++ kernel_text)
          result
    pub owner : Owner
    pub tables : IsTables owner last
    pub copied :
        (j i : ℕ)
        → j < count
        → (header j).type ≡ 1
        → i < (header j).filesz
        → last.mem (target header (space_in r) j + i)
          ≡ file_memory (source header (space_in r + code_space) j + i)
    pub mapped :
        (j i w : ℕ)
        → j < count
        → (header j).type ≡ 1
        → i < pages (header j).memsz
        → page_of w ≡ page_of ((header j).vaddr + 0x1000 * i)
        → translate last w ≡ page 0 (frame_of (target header (space_in r) j) + w % 2 ^ 12)
