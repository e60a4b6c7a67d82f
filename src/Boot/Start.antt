-- ===== src/Boot/Start.antt =====
-- cboot_main of bootloader/cboot/src/main.c where the kernel is found: the jump to it.
use learning_osdev.Base.{
  ℕ, ◌+◌, ◌%◌, ◌^◌, ◌≤◌, ◌<◌, ◌≡◌, ◌≢◌, ◌∙◌, ap, arith, some, List, codes, length, ◌==◌, true,
  Option,
}
use learning_osdev.Mem.Words.{IsBytes}
use learning_osdev.Str.{from, text, memcmp}
use learning_osdev.Print.Printer.{Prints-say}
use learning_osdev.Paging.{Paging, ◌>>=◌}
use learning_osdev.Paging.Invariant.{Owner, IsTables}
use learning_osdev.Bios.{BiosMemoryRegion}
use learning_osdev.Bios.Regions.{IsMap}
use learning_osdev.Bios.Space.{first_suitable}
use learning_osdev.Ustar.{Disk}
use learning_osdev.Ustar.Archive.{Entry, IsArchive, IsSmall, find_contents}
use learning_osdev.Elf.{ProgramHeader, entry_point}
use learning_osdev.Elf.Text.{title}
use learning_osdev.Loader.Layout.{IsExecutable, size_after, text_after}
use learning_osdev.Loader.Rounds.{IsLoading}
use learning_osdev.Loader.Program.{map_kernel_lem}
use learning_osdev.Boot.{
  is_backed, BootInfo, Outcome, started, memmap_at, kernel_path, kernel_space, code_space,
  elf_signature, start_kernel, load_kernel,
}
use learning_osdev.Boot.Steps.{told, prints-step}
use learning_osdev.Boot.Loaded.{loaded_state}
use learning_osdev.Boot.Load.{space_in, HasElfSignature, signed, load_kernel-start}

-- What the kernel is told.
abbrev pub information : ℕ → ℕ → BootInfo
information paddr size = record {
  bios_memory_map_address = 0x500;
  kernel_paddr = paddr;
  kernel_size = size;
}

module _ (fuel : ℕ) (disk : Disk) (lba : ℕ) (s : Paging) (rs : List BiosMemoryRegion)
    (map : IsMap (memmap_at s.mem) 0 rs) (rs_enough : length rs < fuel) (r : BiosMemoryRegion)
    (chosen : first_suitable kernel_space rs ≡ some r) (low : r.base_address < 2 ^ 45)
    (backed : is_backed (space_in r) s ≡ true) (es : List Entry) (archive : IsArchive disk lba 0 es)
    (small : IsSmall es) (es_enough : length es < fuel) (seeker size : ℕ)
    (found : find_contents kernel_path 0 es ≡ some (seeker, size)) (nonempty : size ≢ 0) where
  -- Where the space and the file begin, and the state when the file is read.
  abbrev exe : ℕ
  exe = space_in r

  abbrev kaddr : ℕ
  kaddr = exe + code_space

  abbrev read_state : Paging
  read_state = loaded_state disk (seeker + lba) size exe s

  -- `result` is a jump to the kernel, with every segment copied and mapped.
  pub record IsStarted {file_end top count : ℕ} {header : ℕ → ProgramHeader} {place : ℕ → ℕ}
      (x : IsExecutable read_state kaddr file_end exe top count header place)
      (result : Option (Outcome × Paging)) : Type 0 where
    pub mapped : Paging
    pub loaded : IsLoading x count 0 (text_after header count 0 title) mapped
    pub returns :
        result
        ≡ some (
          started
              (entry_point read_state.mem kaddr)
              (information r.base_address (size_after header count 0 0)),
          told (codes "KERNEL MAPPED, JUMPING TO KERNEL\n") mapped,
        )

  -- Where the memory map has a region below 2 ^ 45 for the kernel, the tables are well-formed and
  -- map the space chosen, and the file that the archive has is, once read, an executable with the signature, as map_kernel
  -- needs it, the loads of cboot_main end with the jump to its entry point with the address of the
  -- memory map, the physical address of the space and the sum of the sizes of the segments; then
  -- every segment is copied and mapped.
  pub load_kernel_lem :
      {file_end top count : ℕ} {header : ℕ → ProgramHeader} {place : ℕ → ℕ} {own : Owner}
      (x : IsExecutable read_state kaddr file_end exe top count header place)
      → HasElfSignature read_state.mem kaddr
      → IsTables own read_state
      → IsBytes read_state.mem
      → count ≤ fuel
      → IsStarted x (load_kernel fuel disk lba s)
  unfolding start_kernel
  load_kernel_lem {count} {header} {own} x sig tables bytes enough =
      let started_at =
        load_kernel-start fuel disk lba s rs map rs_enough r chosen (omega arith) backed es archive
          small es_enough seeker size found nonempty in
      let k = map_kernel_lem x fuel 0 tables bytes enough in
      let same : (memcmp (from kaddr read_state.mem) (text elf_signature) 4 == 0) ≡ true =
        signed read_state.mem kaddr sig in
      let paddr : space_in r % 2 ^ 45 ≡ r.base_address = omega arith in
      rw (started_at, same, ◌>>=◌, k.returns)
        (record {
          mapped = k.after;
          loaded = k.loaded;
          returns =
              prints-step _ k.after (Prints-say "KERNEL MAPPED, JUMPING TO KERNEL\n" (ground arith))
              ∙ ap
                  (λ (n : ℕ). some (
                    started (entry_point read_state.mem kaddr)
                        (information n (size_after header count 0 0)),
                    told (codes "KERNEL MAPPED, JUMPING TO KERNEL\n") k.after,
                  ))
                  paddr;
        })
