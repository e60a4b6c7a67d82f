-- ===== src/Boot/Prepare.antt =====
-- cboot_main of bootloader/cboot/src/main.c up to the choice of a region for the kernel.
use learning_osdev.Base.{
  ℕ, ◌+◌, ◌*◌, ◌^◌, ◌≤◌, ◌<◌, ◌≡◌, ◌≢◌, ◌∙◌, sym, ap, arith, some, none, List, ◌++◌, length, u64,
  Option, false,
}
use learning_osdev.Mem.Words.{IsBytes}
use learning_osdev.Str.{Bytes, text}
use learning_osdev.Print.{Console}
use learning_osdev.Print.Text.{shown}
use learning_osdev.Print.Printer.{shown-append}
use learning_osdev.Paging.{Paging, ◌>>=◌}
use learning_osdev.Paging.Walk.{index, translate, page}
use learning_osdev.Paging.Invariant.{Owner, IsTables}
use learning_osdev.Paging.Printing.{with_console, IsTables-console, translate-console}
use learning_osdev.Paging.Physical.{physical_base, setup_physical_map}
use learning_osdev.Paging.Physical.Steps.{test_text}
use learning_osdev.Paging.Physical.Map.{
  gigabytes, IsIdentity, setup_physical_map_lem, setup_physical_map_passes,
}
use learning_osdev.Bios.{BiosMemoryRegion, scan_bios_memmap}
use learning_osdev.Bios.Regions.{IsMap, free_bytes, map_text, scan_bios_memmap_lem}
use learning_osdev.Gpt.{
  sizeof_partition_entry, gpt_header, gpt_entries, starting_lba, find_partition_by_name,
}
use learning_osdev.Gpt.Partitions.{
  IsEntries, first_named, search_text, names_text, find_partition_by_name_lem,
}
use learning_osdev.Ustar.{Disk}
use learning_osdev.Ustar.Archive.{Entry, IsArchive, find_size}
use learning_osdev.Ustar.Find.{num_sectors_answer, ustar_get_num_sectors_lem}
use learning_osdev.Boot.{
  Outcome, memmap_at, partition_name, kernel_path, load_kernel, find_kernel, boot,
}
use learning_osdev.Boot.Lines.{
  hello_text, found_text, size_text, print_hello-Prints, print_found-Prints, print_size-Prints,
}
use learning_osdev.Boot.Steps.{told, prints-step, asks-step}
use learning_osdev.Boot.Map.{memmap_at-IsMap}

-- The partition that is found.
abbrev pub partition : Disk → Bytes → List (List ℕ) → Bytes
partition disk stack names =
    first_named partition_name (sizeof_partition_entry (gpt_header disk stack))
      (gpt_entries disk stack) 0 names (λ _. 0)

abbrev table_text : Disk → Bytes → List (List ℕ) → List ℕ
table_text disk stack names =
    search_text (gpt_header disk stack) partition_name ++ names_text partition_name false names

-- What is printed up to the map of physical memory, and of the file.
abbrev pub preface : List BiosMemoryRegion → Disk → Bytes → List (List ℕ) → List ℕ
preface rs disk stack names =
    ((hello_text ++ map_text rs) ++ table_text disk stack names)
    ++ found_text (partition disk stack names)

abbrev pub file_text : List Entry → List ℕ
file_text es =
    let answer = num_sectors_answer (find_size kernel_path es) 0 in
    size_text answer.0 (u64 (answer.1 * 512))

-- What cboot_main relies on: tables that map the first megabyte to itself, a memory map that ends
-- below the page tables and has at most 511 GiB of free memory, a table of partitions and an
-- archive.
pub record IsMachine (fuel : ℕ) (disk : Disk) (stack : Bytes) (own : Owner) (s : Paging)
    (rs : List BiosMemoryRegion) (names : List (List ℕ)) (es : List Entry) : Type 0 where
  pub tables : IsTables own s
  pub tables_room : s.it + 4096 < 2 ^ 52
  pub identity : IsIdentity s (2 ^ 20)
  pub map : IsMap (memmap_at s.mem) 0 rs
  pub map_room : 0x500 + 24 * (length rs + 1) ≤ 0x1000
  pub map_enough : length rs < fuel
  pub some_memory : 0 < free_bytes rs
  pub not_too_much : free_bytes rs ≤ 511 * 2 ^ 30
  pub entries :
      IsEntries (sizeof_partition_entry (gpt_header disk stack)) (gpt_entries disk stack) 0 names
  pub entries_enough : length names < fuel
  pub name_enough : length partition_name < fuel
  pub archive : IsArchive disk (starting_lba (partition disk stack names)) 0 es
  pub archive_enough : length es < fuel

-- `result` is what comes of the loads, from a state in which the upper half maps physical memory.
pub record IsPrepared (fuel : ℕ) (disk : Disk) (stack : Bytes) (s : Paging)
    (rs : List BiosMemoryRegion) (names : List (List ℕ)) (es : List Entry)
    (result : Option (Outcome × Paging)) : Type 0 where
  pub after : Paging
  pub owner : Owner
  pub runs : result ≡ load_kernel fuel disk (starting_lba (partition disk stack names)) after
  pub tables : IsTables owner after
  pub map : IsMap (memmap_at after.mem) 0 rs
  pub mapped :
      (a : ℕ)
      → a < gigabytes (free_bytes rs) * 2 ^ 30
      → translate after (physical_base + a) ≡ page 2 a
  pub it_bound : after.it ≡ s.it + 4096
  pub outside : (a : ℕ) → s.it + 4096 ≤ a → after.mem a ≡ s.mem a
  pub others : (w : ℕ) → index 3 w ≢ 256 → translate after w ≡ translate s w
  pub bytes : IsBytes s.mem → IsBytes after.mem
  pub printed :
      after.console ≡ shown ((preface rs disk stack names ++ test_text 0) ++ file_text es) s.console

outcome-injective :
    {a b : ℕ} {s t : Paging} → ◌≡◌ {A = Option (ℕ × Paging)} (some (a, s)) (some (b, t)) → a ≡ b
outcome-injective {a} e = ap (λ (o : Option (ℕ × Paging)). elim o [ none ↦ a | some (n, s) ↦ n ]) e

module _ (fuel : ℕ) (disk : Disk) (stack : Bytes) {own : Owner} (s : Paging)
    (rs : List BiosMemoryRegion) (names : List (List ℕ)) (es : List Entry)
    (x : IsMachine fuel disk stack own s rs names es) where
  -- The console and the state when physical memory is mapped.
  abbrev found_console : Console
  found_console =
      shown (found_text (partition disk stack names))
        (shown (table_text disk stack names) (shown (map_text rs) (shown hello_text s.console)))

  abbrev found_state : Paging
  found_state = with_console found_console s

  found_console-preface : found_console ≡ shown (preface rs disk stack names) s.console
  found_console-preface =
      ap
        (λ (k : Console).
          shown (found_text (partition disk stack names)) (shown (table_text disk stack names) k))
        (shown-append hello_text (map_text rs) s.console)
      ∙ ap (shown (found_text (partition disk stack names)))
          (shown-append (hello_text ++ map_text rs) (table_text disk stack names) s.console)
      ∙ shown-append ((hello_text ++ map_text rs) ++ table_text disk stack names)
          (found_text (partition disk stack names)) s.console

  find_kernel-runs :
      (start after : Paging)
      → setup_physical_map (free_bytes rs) start ≡ some (0, after)
      → find_kernel fuel disk (partition disk stack names) (free_bytes rs) start
        ≡ load_kernel fuel disk
            (starting_lba (partition disk stack names))
            (told (file_text es) after)
  unfolding find_kernel
  find_kernel-runs start after setup =
      let lba = starting_lba (partition disk stack names) in
      let answer = num_sectors_answer (find_size kernel_path es) 0 in
      let found =
        ustar_get_num_sectors_lem disk lba kernel_path (ground arith) fuel 0 es x.archive
          x.archive_enough in
      rw (◌>>=◌, setup, found)
        (prints-step (load_kernel fuel disk lba) after
          (print_size-Prints answer.0 (u64 (answer.1 * 512)) (omega arith)))

  boot-runs :
      (after : Paging)
      → setup_physical_map (free_bytes rs) found_state ≡ some (0, after)
      → boot fuel disk stack s
        ≡ load_kernel fuel disk
            (starting_lba (partition disk stack names))
            (told (file_text es) after)
  unfolding boot
  boot-runs after setup =
      let total_fits : free_bytes rs < 2 ^ 64 = omega (arith, x.not_too_much) in
      prints-step _ s print_hello-Prints
      ∙ asks-step (scan_bios_memmap fuel (memmap_at s.mem)) (map_text rs) _ (told hello_text s) (
          scan_bios_memmap_lem (memmap_at s.mem) rs fuel (shown hello_text s.console) x.map
            x.map_enough total_fits)
      ∙ asks-step (find_partition_by_name fuel disk stack (text partition_name))
          (table_text disk stack names) _ (told (map_text rs) (told hello_text s))
          (find_partition_by_name_lem partition_name (ground arith) fuel disk stack names
            (shown (map_text rs) (shown hello_text s.console)) x.entries x.entries_enough
            x.name_enough)
      ∙ prints-step _ (told (table_text disk stack names) (told (map_text rs) (told hello_text s)))
          (print_found-Prints (partition disk stack names))
      ∙ find_kernel-runs found_state after setup

  found-IsTables : IsTables own found_state
  found-IsTables = IsTables-console found_console x.tables

  found-IsIdentity : IsIdentity found_state (2 ^ 20)
  found-IsIdentity v lt =
      let (k, e) = x.identity v lt in (k, translate-console s found_console v ∙ e)

  -- From a machine as it is left to cboot_main, with at most 511 GiB of memory, cboot_main comes to the
  -- loads: it has printed the memory map, the partitions and the size of the file, the tables are
  -- well-formed, physical memory is mapped from 0xFFFF800000000000 on and every address outside of
  -- that part is translated as before, the memory map is as before, and so is all memory above the new table.
  pub boot_lem : IsPrepared fuel disk stack s rs names es (boot fuel disk stack s)
  boot_lem =
      let p =
        setup_physical_map_lem found_state found-IsTables x.tables_room (free_bytes rs)
          x.not_too_much in
      let (other, passes) =
        setup_physical_map_passes found_state found-IsTables x.tables_room (free_bytes rs)
          x.not_too_much x.some_memory found-IsIdentity in
      let zero_neq : p.neq ≡ 0 = outcome-injective (sym p.returns ∙ passes) in
      let setup : setup_physical_map (free_bytes rs) found_state ≡ some (0, p.after) =
        p.returns ∙ ap (λ (n : ℕ). some (n, p.after)) zero_neq in
      record {
        after = told (file_text es) p.after;
        owner = p.owner;
        runs = boot-runs p.after setup;
        tables = IsTables-console (shown (file_text es) p.after.console) p.well_formed;
        map = memmap_at-IsMap s.mem p.after.mem (λ a lt. sym (p.below a lt)) rs x.map_room x.map;
        mapped = λ a lt.
            translate-console p.after (shown (file_text es) p.after.console) (physical_base + a)
            ∙ p.mapped a lt;
        it_bound = p.it_bound;
        outside = p.outside;
        others = λ w ne.
            translate-console p.after (shown (file_text es) p.after.console) w
            ∙ p.others w ne
            ∙ translate-console s found_console w;
        bytes = p.bytes;
        printed =
            ap (shown (file_text es)) (
              p.printed
              ∙ ap (λ (n : ℕ). shown (test_text n) found_console) zero_neq
              ∙ ap (shown (test_text 0)) found_console-preface
              ∙ shown-append (preface rs disk stack names) (test_text 0) s.console)
            ∙ shown-append (preface rs disk stack names ++ test_text 0) (file_text es) s.console;
      }
