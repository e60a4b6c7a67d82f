-- ===== src/Boot/KernelExample.antt =====
-- A drive with a file /sys/kernel.elf, and a machine with a region for it.
use learning_osdev.Base.{
  ℕ, zero, suc, false, ◌+◌, ◌-◌, ◌*◌, ◌^◌, ◌≤◌, ◌<◌, ◌≡◌, ◌∙◌, refl, arith, ◌==◌, if◌then◌else◌,
  List, [], ◌∷◌, some, codes, inl, inr, true, u64, ap,
}
use learning_osdev.Mem.{Memory, load64, store64}
use learning_osdev.Mem.Words.{IsBytes, store64-IsBytes}
use learning_osdev.Str.{text}
use learning_osdev.Paging.{Paging, p4table, present}
use learning_osdev.Paging.Physical.Example as Example
use learning_osdev.Ustar.{Disk}
use learning_osdev.Ustar.Example.{header_of, header_of-octal}
use learning_osdev.Ustar.Archive.{file, Entry, IsHeader, IsArchive, end, entry}
use learning_osdev.Bios.{BiosMemoryRegion}
use learning_osdev.Bios.Regions.{IsMap, region}
use learning_osdev.Bios.Regions.{end as end_of_map}
use learning_osdev.Elf.{load32}
use learning_osdev.Elf.{
  ProgramHeader, program_header, program_header_table_position, program_header_table_entry_count,
  load16,
}
use learning_osdev.Loader.{align_up_4kb, load_address}
use learning_osdev.Loader.Layout.{IsExecutable, room}
use learning_osdev.Boot.Load.{HasElfSignature}
use learning_osdev.Paging.Walk.{translate, unmapped, is_small, index, walk-absent}
use learning_osdev.Paging.Invariant.{IsTables}
use learning_osdev.Paging.Outside.{IsTables-outside, translate-outside}
use learning_osdev.Paging.Printing.{IsTables-console}
use learning_osdev.Print.{Console}
use learning_osdev.Ustar.Archive.{find_contents}
use learning_osdev.Boot.{kernel_path, memmap_at}
use learning_osdev.Boot.Loaded.{
  loaded_state, kernel_memory, kernel_memory-outside, kernel_memory-IsBytes,
}

-- The words of the file that are not zero, with their offsets: the signature, the header of the
-- file and one program header.
unfoldable pub words : List (ℕ × ℕ)
words =
    (0, 0x464C457F)
    ∷ (24, 0xFFFF900000000400)
    ∷ (32, 64)
    ∷ (48, 0x38000000000000)
    ∷ (56, 1)
    ∷ (64, 1)
    ∷ (72, 0x1000)
    ∷ (80, 0xFFFF900000000000)
    ∷ (96, 16)
    ∷ (104, 0x1800)
    ∷ (112, 0x1000)
    ∷ []

unfoldable pub written : List (ℕ × ℕ) → Memory
written [] = λ _. 0
written ((offset, value) ∷ rest) = store64 (written rest) offset value

pub written-IsBytes : (ws : List (ℕ × ℕ)) → IsBytes (written ws)
unfolding written
written-IsBytes [] = λ a. omega arith
written-IsBytes ((offset, value) ∷ rest) = store64-IsBytes offset value (written-IsBytes rest)

abbrev pub kernel_name : List ℕ
kernel_name = codes "sys/kernel.elf"

abbrev pub kernel_entry : Entry
kernel_entry = record { prefix = []; name = kernel_name; kind = file; size = 0x1010 }

-- The header of the archive, and behind it the file in nine sectors.
abbrev pub kernel_disk : Disk
kernel_disk n i =
    if n == 0 then header_of b'0' kernel_name 0x1010 i else written words ((n - 1) * 512 + i)

pub kernel-IsHeader : IsHeader (kernel_disk 0) kernel_entry
kernel-IsHeader = record {
  signed = λ j lt. ground arith;
  prefix_field = record {
    holds = λ j lt. unfold text in ground arith;
    fits = omega arith;
    is_text = tt;
  };
  name_field = record { holds = λ j lt. ground arith; fits = omega arith; is_text = ground arith };
  octal = λ i lt. header_of-octal b'0' kernel_name 0x1010 i lt;
  fits = omega arith;
  typed = inr refl;
}

pub kernel-IsArchive : IsArchive kernel_disk 0 0 (kernel_entry ∷ [])
unfolding text written words store64
kernel-IsArchive =
    entry {seeker = 0} (omega arith) kernel-IsHeader
      (end {seeker = 10} (omega arith) (λ h. absurd (ground (arith, h 0 (omega arith)))))

pub kernel_found : find_contents kernel_path 0 (kernel_entry ∷ []) ≡ some (1, 0x1010)
kernel_found = refl

-- A memory map with one free region of 512 MiB from 1 MiB on.
abbrev pub lower : Memory
lower a = if a == 0x502 then 0x10 else if a == 0x50B then 32 else if a == 0x510 then 1 else 0

pub lower-above : (a : ℕ) → 0x1000 ≤ a → lower a ≡ 0
lower-above a le = ground arith

abbrev pub free : BiosMemoryRegion
free = record { base_address = 0x100000; map_size = 0x20000000; type = 1; acpi3 = 0 }

abbrev pub paging : Paging
paging = Example.boot lower lower-above

pub paging-IsMap : IsMap (memmap_at paging.mem) 0 (free ∷ [])
unfolding memmap_at load64 load32 store64
paging-IsMap = region (λ e. ground arith) (end_of_map refl)

-- Where the code and the file lie, and the state when the file is read.
abbrev pub exe : ℕ
exe = 0xFFFF800000100000

abbrev pub kaddr : ℕ
kaddr = 0xFFFF80000A100000

abbrev pub read_state : Paging
read_state = loaded_state kernel_disk 1 0x1010 exe paging

pub read-same : (a : ℕ) → a < paging.it → read_state.mem a ≡ paging.mem a
read-same a lt = kernel_memory-outside kernel_disk 1 0x1010 exe paging.mem a (inl (omega arith))

pub read-IsTables : IsTables (Example.boot_owner lower lower-above) read_state
read-IsTables =
    IsTables-console read_state.console
      (IsTables-outside (Example.boot-IsTables lower lower-above) read_state.mem read-same)

-- The page tables hold nothing for the addresses of the kernel.
pub kernel_page-unmapped : (w : ℕ) → index 3 w ≡ 288 → translate paging w ≡ unmapped
unfolding translate present
kernel_page-unmapped w e =
    walk-absent paging.mem 3 p4table w (
      rw (e, Example.boot_entry lower lower-above p4table 288 refl (omega arith) (omega arith))
        refl)

-- The state with the file, whatever the console shows and the next table is.
abbrev pub file_at : Console → ℕ → Paging
file_at k n = record paging { mem = read_state.mem; it = n; console = k }

pub kernel_page-is_small :
    (k : Console) (n w : ℕ) → index 3 w ≡ 288 → is_small (translate (file_at k n) w) ≡ true
unfolding translate
kernel_page-is_small k n w e = ap is_small (
    translate-outside (Example.boot-IsTables lower lower-above) read_state.mem read-same w
    ∙ kernel_page-unmapped w e)

abbrev pub code_header : ProgramHeader
code_header = record {
  type = 1;
  offset = 0x1000;
  vaddr = 0xFFFF900000000000;
  paddr = 0;
  filesz = 16;
  memsz = 0x1800;
  align = 0x1000;
}

pub header_read : program_header read_state.mem (kaddr + 64) ≡ code_header
unfolding program_header load64 load32 store64 written words kernel_memory
header_read = refl

pub file-IsExecutable :
    (console : Console) (n : ℕ)
    → n ≤ 0x21000
    → IsExecutable
        (file_at console n)
        kaddr
        (kaddr + 0x2000)
        exe
        0x40000
        1
        (λ k. code_header)
        (λ k. kaddr + 64)
unfolding align_up_4kb load_address room load16 load64 kernel_memory written words store64
file-IsExecutable console n le = record {
  first = position;
  next = λ k lt. absurd (omega arith);
  counted = count;
  some_header = omega arith;
  header_low = λ k lt. omega arith;
  header_high = λ k lt. omega arith;
  file_header = omega arith;
  file_fits = omega arith;
  headers = λ k lt. header_read;
  loadable = λ k lt t. record {
    source_low = omega arith;
    source_high = omega arith;
    above = omega arith;
    fits = omega arith;
    clear_of_file = inr (omega arith);
    small = λ j lo hi.
        kernel_page-is_small console n (u64 (0xFFFF900000000000 + 0x1000 * j))
          (unfold index in omega arith);
  };
  apart = λ j k lt kl t u. absurd (omega arith);
  tables_fit = omega arith;
  top_low = omega arith;
  top_below = omega arith;
}
  where
    position : kaddr + 64 ≡ u64 (kaddr + program_header_table_position read_state.mem kaddr)
    position = refl

    count : program_header_table_entry_count read_state.mem kaddr ≡ 1
    count = refl

pub read-signed : HasElfSignature read_state.mem kaddr
unfolding kernel_memory written words store64 text
read-signed zero lt = refl
read-signed (suc zero) lt = refl
read-signed (suc (suc zero)) lt = refl
read-signed (suc (suc (suc zero))) lt = refl
read-signed (suc (suc (suc (suc j)))) lt = absurd (omega arith)

pub paging-IsBytes : IsBytes paging.mem
paging-IsBytes = store64-IsBytes 0x2000 131 (store64-IsBytes 0x1000 0x2003 (λ a. ground arith))

pub file-bytes : (n i : ℕ) → 1 ≤ n → kernel_disk n i < 2 ^ 8
file-bytes n i le =
    let behind : (n == 0) ≡ false = ground arith in
    rw behind (written-IsBytes words ((n - 1) * 512 + i))

pub read-IsBytes : IsBytes read_state.mem
read-IsBytes = kernel_memory-IsBytes kernel_disk 1 0x1010 exe paging.mem file-bytes paging-IsBytes

pub read-IsExecutable :
    IsExecutable read_state kaddr
      (kaddr + 0x2000)
      exe
      0x40000
      1
      (λ k. code_header)
      (λ k. kaddr + 64)
read-IsExecutable = file-IsExecutable read_state.console 0x20000 (omega arith)
