-- ===== src/Gpt/Tests.antt =====
-- find_partition_by_name on a drive with two partitions.
use learning_osdev.Base.{
  ◌++◌, false, ℕ, zero, suc, ◌+◌, ◌*◌, ◌/◌, ◌%◌, ◌<◌, true, sym, ap, ◌∙◌, Bool-cases, inl, inr, ◌≡◌,
  refl, arith, List, [], ◌∷◌, some, ◌==◌, ltb, if◌then◌else◌,
}
use learning_osdev.Str.{text, from}
use learning_osdev.Str.Text.{IsText}
use learning_osdev.Print.{Console}
use learning_osdev.Print.Text.{shown}
use learning_osdev.Ustar.{Disk, sectors_read_into, sectors_read, sectors_length}
use learning_osdev.Gpt.{
  part_name, sizeof_partition_entry, gpt_header, gpt_entries, find_partition_by_name,
}
use learning_osdev.Gpt.Partitions.{
  IsPartition, IsEntries, end, entry, first_named, search_text, names_text,
  find_partition_by_name_lem,
}

-- The sector 1 says that entries have 128 bytes, and the sector 2 has entries `a` and `b`.
abbrev two_partitions : Disk
two_partitions n i =
    if n == 1
    then (if i == 84 then 128 else 0)
    else if n == 2
    then (if i == 0
        then 7
        else if i == 56
        then b'a'
        else if i == 128
        then 7
        else if i == 184
        then b'b'
        else 0)
    else 0

abbrev ab : List (List ℕ)
ab = (b'a' ∷ []) ∷ (b'b' ∷ []) ∷ []

entries_byte : (k : ℕ) → k < 512 → gpt_entries two_partitions (λ _. 0) k ≡ two_partitions 2 k
unfolding sectors_read_into sectors_length sectors_read
entries_byte k lt =
    let inside : ltb k 4096 ≡ true = ground arith in
    let sector : 2 + k / 512 ≡ 2 = omega arith in
    let byte : k % 512 ≡ k = omega arith in rw (inside, sector, byte) refl

IsPartition-at :
    (ptr c : ℕ)
    → ptr < 256
    → IsText (c ∷ [])
    → two_partitions 2 ptr ≡ 7
    → two_partitions 2 (ptr + 56) ≡ c
    → ((j : ℕ) → j < 31 → two_partitions 2 (ptr + 58 + 2 * j) ≡ 0)
    → IsPartition (from ptr (gpt_entries two_partitions (λ _. 0))) (c ∷ [])
unfolding part_name text
IsPartition-at ptr c lt is_text used first others = record {
  used = λ h.
      let at : ptr + 0 ≡ ptr = omega arith in
      absurd (
        omega (
          arith,
          h 0 (omega arith)
              ∙ ap (gpt_entries two_partitions (λ _. 0)) at
              ∙ entries_byte ptr (omega arith)
              ∙ used,
        ));
  named = name;
  is_text = is_text;
  short = omega arith;
}
  where
    name : (j : ℕ) → part_name (from ptr (gpt_entries two_partitions (λ _. 0))) j ≡ text (c ∷ []) j
    name zero = entries_byte (ptr + 56) (omega arith) ∙ first
    name (suc j) = elim (Bool-cases (ltb (suc j) 32)) [
      | inl inside ↦
          let near : suc j < 32 = ground arith in
          let at : ptr + (56 + 2 * suc j) ≡ ptr + 58 + 2 * j = omega arith in
          rw (inside, at) (entries_byte (ptr + 58 + 2 * j) (omega arith) ∙ others j (omega arith))
      | inr outside ↦ rw outside refl
    ]

two_partitions-IsEntries :
    IsEntries
      (sizeof_partition_entry (gpt_header two_partitions (λ _. 0)))
      (gpt_entries two_partitions (λ _. 0))
      0
      ab
unfolding sectors_read_into sectors_length sectors_read
two_partitions-IsEntries =
    entry {ptr = 0}
      (IsPartition-at 0 b'a' (omega arith) (ground arith) refl refl (λ j lt. ground arith))
      (entry {ptr = 128}
        (IsPartition-at 128 b'b' (omega arith) (ground arith) refl refl (λ j lt. ground arith))
        (end {ptr = 256} (λ j lt. sym (entries_byte (256 + j) (omega arith) ∙ ground arith))))

abbrev console : Console
console = record {
  screen = record {
    vga_buffer = λ n. record { character = b' '; colour = 7 };
    column_counter = 0;
    foreground = 7;
    background = 0;
  };
  serial = [];
}

find_partition_by_name_lem_example :
    find_partition_by_name 3 two_partitions (λ _. 0) (text (b'b' ∷ [])) console
    ≡ some (
      first_named (b'b' ∷ []) 128 (gpt_entries two_partitions (λ _. 0)) 0 ab (λ _. 0),
      shown
          (search_text (gpt_header two_partitions (λ _. 0)) (b'b' ∷ [])
            ++ names_text (b'b' ∷ []) false ab)
          console,
    )
unfolding sectors_read_into sectors_length sectors_read
find_partition_by_name_lem_example =
    find_partition_by_name_lem (b'b' ∷ []) (ground arith) 3 two_partitions (λ _. 0) ab console
      two_partitions-IsEntries (omega arith) (omega arith)
