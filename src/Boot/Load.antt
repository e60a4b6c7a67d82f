-- ===== src/Boot/Load.antt =====
-- cboot_main of bootloader/cboot/src/main.c from the choice of a region on: how it ends.
use learning_osdev.Base.{
  ℕ, ◌+◌, ◌^◌, ◌<◌, ◌≡◌, ◌≢◌, ◌∙◌, refl, ap, arith, some, none, List, ◌++◌, codes, length, u64,
  ◌==◌, true, false, Bool-cases, inl, inr,
}
use learning_osdev.Mem.{Memory}
use learning_osdev.Str.{from, text, memcmp}
use learning_osdev.Str.Compare.{memcmp_lem}
use learning_osdev.Print.Printer.{Prints-say}
use learning_osdev.Paging.{Paging, ◌>>=◌, ◌>>◌}
use learning_osdev.Paging.Physical.{physical_base}
use learning_osdev.Paging.Physical.Steps.{clear_lem}
use learning_osdev.Paging.Physical.Pointer.{physical_to_virtual_pointer-sum}
use learning_osdev.Bios.{BiosMemoryRegion, allocate_space_for_kernel}
use learning_osdev.Bios.Regions.{IsMap}
use learning_osdev.Bios.Space.{first_suitable, pointer_to, allocate_space_for_kernel_lem}
use learning_osdev.Ustar.{Disk}
use learning_osdev.Ustar.Archive.{Entry, IsArchive, IsSmall, find_contents}
use learning_osdev.Boot.{
  astray, is_backed, memmap_at, kernel_path, kernel_space, code_space, elf_signature, start_kernel,
  read_kernel, load_kernel,
}
use learning_osdev.Boot.Backed.{is_backed-null}
use learning_osdev.Paging.Walk.{translate, page}
use learning_osdev.Boot.Steps.{told, told-told, IsHalt, prints-step, say-IsHalt, IsHalt-told}
use learning_osdev.Boot.Loaded.{
  cleared_memory, memset-cleared, loaded_state, load_file-found, load_file-missing,
}

-- The address of the space in a region.
abbrev pub space_in : BiosMemoryRegion → ℕ
space_in r = physical_base + r.base_address

-- The signature stands at `kaddr`.
abbrev pub HasElfSignature : Memory → ℕ → Type 0
HasElfSignature m kaddr = (j : ℕ) → j < 4 → m (kaddr + j) ≡ text elf_signature j

pub signed :
    (m : Memory) (kaddr : ℕ)
    → HasElfSignature m kaddr
    → (memcmp (from kaddr m) (text elf_signature) 4 == 0) ≡ true
signed m kaddr sig = ground (arith, (memcmp_lem (from kaddr m) (text elf_signature) 4).0.1 sig)

not_signed :
    (m : Memory) (kaddr : ℕ)
    → ¬ HasElfSignature m kaddr
    → (memcmp (from kaddr m) (text elf_signature) 4 == 0) ≡ false
not_signed m kaddr other = elim (Bool-cases (memcmp (from kaddr m) (text elf_signature) 4 == 0)) [
  | inl z ↦ absurd (other ((memcmp_lem (from kaddr m) (text elf_signature) 4).0.0 (ground arith)))
  | inr ne ↦ ne
]

module _ (fuel : ℕ) (disk : Disk) (lba : ℕ) (s : Paging) (rs : List BiosMemoryRegion)
    (map : IsMap (memmap_at s.mem) 0 rs) (rs_enough : length rs < fuel) where
  load_kernel-read :
      (exe : ℕ)
      → pointer_to (first_suitable kernel_space rs) ≡ exe
      → exe + kernel_space + 8 < 2 ^ 64
      → is_backed exe s ≡ true
      → load_kernel fuel disk lba s
        ≡ read_kernel fuel disk lba exe (record s { mem = cleared_memory exe s.mem })
  unfolding load_kernel
  load_kernel-read exe e fits backed =
      let chosen : allocate_space_for_kernel fuel (memmap_at s.mem) kernel_space ≡ some exe =
        allocate_space_for_kernel_lem (memmap_at s.mem) rs fuel kernel_space map rs_enough
        ∙ ap some e in
      rw
        (
          ◌>>=◌,
          chosen,
          backed,
          ◌>>◌,
          clear_lem exe kernel_space s (cleared_memory exe s.mem) (memset-cleared exe s.mem fits),
        )
        refl

  -- Where the memory map ends and has no region for the kernel, and the address 0 is mapped to
  -- itself, the first store to the space, which is at 0, goes astray.
  pub load_kernel-no_space :
      (k : ℕ)
      → first_suitable kernel_space rs ≡ none
      → translate s 0 ≡ page k 0
      → load_kernel fuel disk lba s ≡ some (astray, s)
  unfolding load_kernel
  load_kernel-no_space k nowhere identity =
      let chosen : allocate_space_for_kernel fuel (memmap_at s.mem) kernel_space ≡ some 0 =
        allocate_space_for_kernel_lem (memmap_at s.mem) rs fuel kernel_space map rs_enough
        ∙ ap some (rw nowhere refl) in
      rw (◌>>=◌, chosen, is_backed-null s k identity) refl

  module _ (r : BiosMemoryRegion) (chosen : first_suitable kernel_space rs ≡ some r)
      (low : r.base_address < 2 ^ 46) (backed : is_backed (space_in r) s ≡ true) (es : List Entry)
      (archive : IsArchive disk lba 0 es) (small : IsSmall es) (es_enough : length es < fuel) where
    pointer-space_in : pointer_to (first_suitable kernel_space rs) ≡ space_in r
    pointer-space_in = rw chosen (physical_to_virtual_pointer-sum r.base_address (omega arith))

    -- The state when the file is read.
    abbrev pub loading_state : Paging
    loading_state =
        told (codes "Loading kernel\n") (record s { mem = cleared_memory (space_in r) s.mem })

    -- Where the memory map has a region for the kernel and the tables map the space chosen, but the
    -- archive has no file /sys/kernel.elf, cboot_main only clears the space in the region, says so and halts.
    pub load_kernel-no_file :
        find_contents kernel_path 0 es ≡ none
        → IsHalt
            (codes "Loading kernel\n" ++ codes "Error loading kernel file")
            (record s { mem = cleared_memory (space_in r) s.mem })
            (load_kernel fuel disk lba s)
    unfolding read_kernel
    load_kernel-no_file missing =
        let not_null : (space_in r == 0) ≡ false = ground arith in
        let kaddr : u64 (space_in r + code_space) ≡ space_in r + code_space = omega arith in
        let none_loaded =
          load_file-missing disk lba fuel es archive small es_enough (ground arith)
            (space_in r + code_space) loading_state missing in
        load_kernel-read (space_in r) pointer-space_in (omega arith) backed
        ∙ rw (not_null, kaddr)
            (prints-step _ (record s { mem = cleared_memory (space_in r) s.mem })
                (Prints-say "Loading kernel\n" (ground arith))
              ∙ rw (◌>>=◌, none_loaded)
                  (IsHalt-told (codes "Loading kernel\n") (codes "Error loading kernel file")
                    (record s { mem = cleared_memory (space_in r) s.mem })
                    (say-IsHalt "Error loading kernel file" loading_state (ground arith))))

    module _ (seeker size : ℕ) (found : find_contents kernel_path 0 es ≡ some (seeker, size))
        (nonempty : size ≢ 0) where
      abbrev read_state : Paging
      read_state = loaded_state disk (seeker + lba) size (space_in r) s

      pub load_kernel-start :
          load_kernel fuel disk lba s
          ≡ start_kernel fuel disk (space_in r + code_space) (space_in r) read_state
      unfolding read_kernel
      load_kernel-start =
          let not_null : (space_in r == 0) ≡ false = ground arith in
          let kaddr : u64 (space_in r + code_space) ≡ space_in r + code_space = omega arith in
          let not_empty : (size == 0) ≡ false = ground arith in
          let read =
            load_file-found disk lba fuel es archive small es_enough (ground arith) (space_in r)
              loading_state s.mem seeker size refl found in
          load_kernel-read (space_in r) pointer-space_in (omega arith) backed
          ∙ rw (not_null, kaddr)
              (prints-step _ (record s { mem = cleared_memory (space_in r) s.mem })
                  (Prints-say "Loading kernel\n" (ground arith))
                ∙ rw (◌>>=◌, read, not_empty)
                    (prints-step _ (record loading_state { mem = read_state.mem })
                        (Prints-say "Loaded Kernel\n" (ground arith))
                      ∙ ap (start_kernel fuel disk (space_in r + code_space) (space_in r)) (
                          told-told (codes "Loading kernel\n") (codes "Loaded Kernel\n")
                            (record s { mem = read_state.mem }))))

      -- Where the memory map has a region below 2 ^ 46 for the kernel, the tables map the space
      -- chosen, and the archive has the file with a byte in it, which once read does not begin with the signature, the loads of
      -- cboot_main read it into the cleared space, say so and halt.
      pub load_kernel-not_elf :
          ¬ HasElfSignature read_state.mem (space_in r + code_space)
          → IsHalt
              ((codes "Loading kernel\n" ++ codes "Loaded Kernel\n")
                ++ codes "ERR: ELF signature not matching\n")
              (record s { mem = read_state.mem })
              (load_kernel fuel disk lba s)
      unfolding start_kernel
      load_kernel-not_elf other =
          load_kernel-start
          ∙ rw (not_signed read_state.mem (space_in r + code_space) other) (
              IsHalt-told (codes "Loading kernel\n" ++ codes "Loaded Kernel\n")
                (codes "ERR: ELF signature not matching\n") (record s { mem = read_state.mem })
                (say-IsHalt "ERR: ELF signature not matching\n" read_state (ground arith)))
