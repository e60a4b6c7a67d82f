-- ===== src/Gpt.antt =====
-- The partition table: find_partition_by_name of bootloader/cboot/src/main.c, over
-- bootloader/cboot/include/gpt.h.
pub mod Partitions
mod Tests
use learning_osdev.Base.{
  ℕ, zero, suc, ◌+◌, ◌*◌, ◌^◌, ◌==◌, ltb, ◌&&◌, not, Bool, true, false, if◌then◌else◌, Option, none,
  some,
}
use learning_osdev.Mem.{load64}
use learning_osdev.Str.{Bytes, from, memcmp, strncmp}
use learning_osdev.Print.{puts}
use learning_osdev.Print.Printer.{Printer, ◌>>◌, quiet, char, say}
use learning_osdev.Print.Query.{Query, answer, after}
use learning_osdev.Ustar.{Disk, sectors_read_into}

-- `gpt->sizeof_partition_entry`
abbrev pub sizeof_partition_entry : Bytes → ℕ
sizeof_partition_entry gpt = gpt 84 + 2 ^ 8 * gpt 85 + 2 ^ 16 * gpt 86 + 2 ^ 24 * gpt 87

-- `gpte.starting_lba` and `gpte.ending_lba`
abbrev pub starting_lba : Bytes → ℕ
starting_lba gpte = load64 gpte 32

abbrev pub ending_lba : Bytes → ℕ
ending_lba gpte = load64 gpte 40

-- The bytes of `part_name`: the low bytes of the 32 characters at offset 56.
unfoldable pub part_name : Bytes → Bytes
part_name gpte i = if ltb i 32 then gpte (56 + 2 * i) else 0

-- `hit` is the outcome of the test that ends in "System Partition Found".
unfoldable pub print_partition : Bytes → Bool → Printer
print_partition gpte hit = do
  say "Partition Detected: "
  puts 33 (part_name gpte)
  char b'\n'
  if hit then say "System Partition Found :)\n" else quiet

-- The loop at the entry `gpte_ptr`, an offset into `buf`. The result is the entry found.
unfoldable pub find_partition_loop : ℕ → Bytes → ℕ → Bytes → ℕ → Bool → Bytes → Query Bytes
find_partition_loop zero name gpte_size buf gpte_ptr found gpte_found = λ k. none
find_partition_loop (suc f) name gpte_size buf gpte_ptr found gpte_found =
    let gpte = from gpte_ptr buf in
    let hit = (strncmp name (part_name gpte) 32 == 0) && not found in
    let rest = after (print_partition gpte hit) (
      find_partition_loop f name gpte_size buf (gpte_ptr + gpte_size) (if hit then true else found)
        (if hit then gpte else gpte_found)) in
    if memcmp (λ _. 0) gpte 16 == 0 then answer gpte_found else rest

-- The buffer after each of the two reads, for what stands there, and behind it, before.
abbrev pub gpt_header : Disk → Bytes → Bytes
gpt_header disk stack = sectors_read_into disk 1 1 stack

abbrev pub gpt_entries : Disk → Bytes → Bytes
gpt_entries disk stack = sectors_read_into disk 2 8 (gpt_header disk stack)

-- The loop over the signature at `i`, with so many bytes left.
unfoldable pub print_signature : ℕ → ℕ → Bytes → Printer
print_signature zero i gpt = quiet
print_signature (suc left) i gpt = do char (gpt i); print_signature left (i + 1) gpt

-- The lines in front of the loop; the fuel bounds the text at `name`.
unfoldable pub print_search : ℕ → Bytes → Bytes → Printer
print_search fuel gpt name = do
  say "GPT Signature: "
  print_signature 8 0 gpt
  char b'\n'
  say "Looking For Partition: "
  puts fuel name
  char b'\n'

unfoldable pub find_partition_by_name : ℕ → Disk → Bytes → Bytes → Query Bytes
find_partition_by_name fuel disk stack name =
    after (print_search fuel (gpt_header disk stack) name) (
      find_partition_loop fuel name (sizeof_partition_entry (gpt_header disk stack))
        (gpt_entries disk stack) 0 false (λ _. 0))
