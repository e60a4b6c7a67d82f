-- ===== src/Boot/Kernel.antt =====
-- The loads of cboot_main of bootloader/cboot/src/main.c on a machine with a kernel on its drive.
use learning_osdev.Base.{
  ℕ, ◌+◌, ◌*◌, ◌^◌, ◌≤◌, ◌<◌, ◌≡◌, ◌≢◌, ◌∙◌, sym, arith, some, inl, List, u64,
}
use learning_osdev.Mem.Words.{IsBytes, load64-cong}
use learning_osdev.Str.{Bytes}
use learning_osdev.Paging.{Paging}
use learning_osdev.Paging.Walk.{index, translate}
use learning_osdev.Paging.Invariant.{Owner, IsTables}
use learning_osdev.Paging.Outside.{IsTables-outside, translate-outside}
use learning_osdev.Paging.Printing.{IsTables-console}
use learning_osdev.Bios.{BiosMemoryRegion}
use learning_osdev.Ustar.{Disk}
use learning_osdev.Ustar.Archive.{Entry, IsSmall, find_contents}
use learning_osdev.Gpt.{starting_lba}
use learning_osdev.Elf.{ProgramHeader, entry_point}
use learning_osdev.Loader.Segment.{pages}
use learning_osdev.Loader.Layout.{IsExecutable}
use learning_osdev.Loader.Transfer.{IsExecutable-cong}
use learning_osdev.Boot.{kernel_path, kernel_space, code_space, load_kernel, boot}
use learning_osdev.Boot.Loaded.{
  kernel_memory, loaded_state, kernel_memory-inside, kernel_memory-outside, kernel_memory-IsBytes,
}
use learning_osdev.Loader.Layout.{target}
use learning_osdev.Boot.Room.{HasSpace, space-low, space-is_backed}
use learning_osdev.Boot.Load.{space_in, HasElfSignature}
use learning_osdev.Boot.Start.{IsStarted, load_kernel_lem}
use learning_osdev.Boot.Prepare.{partition, IsMachine, IsPrepared, boot_lem}

-- The state with the file in its space, and a table more.
abbrev pub file_state : Disk → ℕ → ℕ → ℕ → Paging → Paging
file_state disk first size exe s = record s {
  mem = kernel_memory disk first size exe s.mem;
  it = s.it + 4096;
}

-- The drive has a kernel for this machine: a region suits it, the archive has its file, and the file
-- is an executable whose segments have pages outside of the map of physical memory.
pub record HasKernel (disk : Disk) (lba : ℕ) (s : Paging) (rs : List BiosMemoryRegion)
    (es : List Entry) (r : BiosMemoryRegion) (seeker size file_end top count : ℕ)
    (header : ℕ → ProgramHeader) (place : ℕ → ℕ) : Type 0 where
  pub space : HasSpace s rs r
  pub small : IsSmall es
  pub found : find_contents kernel_path 0 es ≡ some (seeker, size)
  pub nonempty : size ≢ 0
  pub disk_bytes : (n i : ℕ) → disk n i < 2 ^ 8
  pub bytes : IsBytes s.mem
  pub executable :
      IsExecutable
        (file_state disk (seeker + lba) size (space_in r) s)
        (space_in r + code_space)
        file_end
        (space_in r)
        top
        count
        header
        place
  pub within : file_end ≤ space_in r + kernel_space
  pub signature :
      HasElfSignature
        (file_state disk (seeker + lba) size (space_in r) s).mem
        (space_in r + code_space)
  -- The copies stay in the space, and the page tables in the first megabyte.
  pub copies_low :
      (k : ℕ) → k < count → (header k).type ≡ 1 → space_in r ≤ target header (space_in r) k
  pub copies_high :
      (k : ℕ)
      → k < count
      → (header k).type ≡ 1
      → target header (space_in r) k + (header k).filesz ≤ space_in r + kernel_space
  pub top_low : top ≤ 0x100000
  pub elsewhere :
      (k i : ℕ)
      → k < count
      → (header k).type ≡ 1
      → i < pages (header k).memsz
      → index 3 (u64 ((header k).vaddr + 0x1000 * i)) ≢ 256

module _ (fuel : ℕ) (disk : Disk) (stack : Bytes) {own : Owner} (s : Paging)
    (rs : List BiosMemoryRegion) (names : List (List ℕ)) (es : List Entry)
    (x : IsMachine fuel disk stack own s rs names es) (r : BiosMemoryRegion)
    {seeker size file_end top count : ℕ} {header : ℕ → ProgramHeader} {place : ℕ → ℕ}
    (h : HasKernel disk
      (starting_lba (partition disk stack names))
      s
      rs
      es
      r
      seeker
      size
      file_end
      top
      count
      header
      place) where
  abbrev lba : ℕ
  lba = starting_lba (partition disk stack names)

  abbrev ready : IsPrepared fuel disk stack s rs names es (boot fuel disk stack s)
  ready = boot_lem fuel disk stack s rs names es x

  -- The state with the file, before the machine is prepared and after.
  abbrev file_before : Paging
  file_before = file_state disk (seeker + lba) size (space_in r) s

  abbrev read_state : Paging
  read_state = loaded_state disk (seeker + lba) size (space_in r) ready.after

  pub same_file :
      (a : ℕ) → space_in r + code_space ≤ a → a < file_end → read_state.mem a ≡ file_before.mem a
  same_file a lo hi =
      kernel_memory-inside disk (seeker + lba) size (space_in r) ready.after.mem s.mem a
        (omega arith) (omega (arith, h.within))

  -- The page tables lie below the space.
  read-same : (a : ℕ) → a < ready.after.it → read_state.mem a ≡ ready.after.mem a
  read-same a lt =
      kernel_memory-outside disk (seeker + lba) size (space_in r) ready.after.mem a
        (inl (omega (arith, ready.it_bound, x.tables_room)))

  read-translate : (w : ℕ) → index 3 w ≢ 256 → translate read_state w ≡ translate file_before w
  unfolding translate
  read-translate w ne =
      translate-outside ready.tables read_state.mem read-same w
      ∙ ready.others w ne
      ∙ sym (
          translate-outside x.tables file_before.mem
            (λ a lt.
              kernel_memory-outside disk (seeker + lba) size (space_in r) s.mem a
                (inl (omega (arith, x.tables_room))))
            w)

  pub read-IsExecutable :
      IsExecutable read_state (space_in r + code_space) file_end (space_in r) top count header place
  read-IsExecutable =
      IsExecutable-cong file_before read_state h.executable same_file ready.it_bound
        (λ k i lt one il sm.
          rw (read-translate (u64 ((header k).vaddr + 0x1000 * i)) (h.elsewhere k i lt one il)) sm)

  read-IsTables : IsTables ready.owner read_state
  read-IsTables =
      IsTables-console read_state.console (IsTables-outside ready.tables read_state.mem read-same)

  pub same_entry_point :
      entry_point read_state.mem (space_in r + code_space)
      ≡ entry_point file_before.mem (space_in r + code_space)
  same_entry_point =
      load64-cong read_state.mem file_before.mem (space_in r + code_space + 24)
        (λ a lo hi. same_file a (omega arith) (omega (arith, h.executable.file_header)))

  -- The loads on the machine that is prepared.
  pub ready-IsStarted :
      count ≤ fuel
      → IsStarted fuel disk lba ready.after rs ready.map x.map_enough r h.space.chosen
          (space-low fuel disk stack s rs names es x r h.space)
          (space-is_backed fuel disk stack s rs names es x r h.space)
          es
          x.archive
          h.small
          x.archive_enough
          seeker
          size
          h.found
          h.nonempty
          read-IsExecutable
          (load_kernel fuel disk lba ready.after)
  ready-IsStarted enough =
      load_kernel_lem fuel disk lba ready.after rs ready.map x.map_enough r h.space.chosen
        (space-low fuel disk stack s rs names es x r h.space)
        (space-is_backed fuel disk stack s rs names es x r h.space) es x.archive h.small
        x.archive_enough seeker size h.found h.nonempty read-IsExecutable
        (λ j lt.
          same_file (space_in r + code_space + j) (omega arith)
            (omega (arith, h.executable.file_header))
          ∙ h.signature j lt)
        read-IsTables
        (kernel_memory-IsBytes disk (seeker + lba) size (space_in r) ready.after.mem
          (λ n i le. h.disk_bytes n i) (ready.bytes h.bytes))
        enough
