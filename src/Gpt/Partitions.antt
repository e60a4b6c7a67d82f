-- ===== src/Gpt/Partitions.antt =====
-- find_partition_by_name against a description of the table of partitions.
use learning_osdev.Base.{
  codes, ◌++◌, Bool, ◌&&◌, not, ℕ, zero, suc, ◌+◌, ◌≤◌, ◌<◌, ◌≡◌, ◌≢◌, ◌↔◌, refl, arith, List, [],
  ◌∷◌, length, ◌==◌, true, false, if◌then◌else◌, some, Bool-cases, inl, inr, ap, sym, ◌∙◌,
}
use learning_osdev.Str.{Bytes, from, text, memcmp, strncmp}
use learning_osdev.Str.Compare.{memcmp_lem, strncmp_lem, IsBytes, SameText}
use learning_osdev.Str.Text.{IsText, text-IsBytes, text-injective}
use learning_osdev.Print.{Console, puts}
use learning_osdev.Print.Text.{shown, puts_lem}
use learning_osdev.Print.Printer.{
  Prints, Prints-then, Prints-quiet, Prints-char, Prints-say, Prints-if,
}
use learning_osdev.Print.Query.{Gives, Gives-answer, Gives-after}
use learning_osdev.Ustar.{Disk}
use learning_osdev.Ustar.Archive.{same_text, same_text-eq, same_text_refl}
use learning_osdev.Gpt.{
  sizeof_partition_entry, part_name, print_partition, print_signature, print_search,
  find_partition_loop, gpt_header, gpt_entries, find_partition_by_name,
}

-- An entry that is in use, with its name in single bytes, of 31 characters at most.
pub record IsPartition (gpte : Bytes) (name : List ℕ) : Type 0 where
  pub used : ¬ ((j : ℕ) → j < 16 → 0 ≡ gpte j)
  pub named : (j : ℕ) → part_name gpte j ≡ text name j
  pub is_text : IsText name
  pub short : length name < 32

-- The names of the entries from an offset on. The first entry whose type is zero ends them.
pub data IsEntries (gpte_size : ℕ) (buf : Bytes) : ℕ → List (List ℕ) → Type 0 where
  end : {ptr : ℕ} → ((j : ℕ) → j < 16 → 0 ≡ buf (ptr + j)) → IsEntries gpte_size buf ptr []
  entry :
      {ptr : ℕ} {name : List ℕ} {names : List (List ℕ)}
      → IsPartition (from ptr buf) name
      → IsEntries gpte_size buf (ptr + gpte_size) names
      → IsEntries gpte_size buf ptr (name ∷ names)

-- The bytes of the first entry with the name, or `none_found`.
abbrev pub first_named : List ℕ → ℕ → Bytes → ℕ → List (List ℕ) → Bytes → Bytes
first_named name gpte_size buf ptr [] none_found = none_found
first_named name gpte_size buf ptr (n ∷ names) none_found =
    if same_text n name
    then from ptr buf
    else first_named name gpte_size buf (ptr + gpte_size) names none_found

-- What is printed.
abbrev partition_text : List ℕ → Bool → List ℕ
partition_text n hit =
    codes "Partition Detected: "
    ++ (n ++ ((b'\n' ∷ []) ++ (if hit then codes "System Partition Found :)\n" else [])))

abbrev pub names_text : List ℕ → Bool → List (List ℕ) → List ℕ
names_text name found [] = []
names_text name found (n ∷ names) =
    partition_text n (same_text n name && not found)
    ++ names_text name (if same_text n name && not found then true else found) names

abbrev signature : ℕ → ℕ → Bytes → List ℕ
signature zero i gpt = []
signature (suc left) i gpt = (gpt i ∷ []) ++ signature left (i + 1) gpt

abbrev pub search_text : Bytes → List ℕ → List ℕ
search_text gpt name =
    codes "GPT Signature: "
    ++ (signature 8 0 gpt
        ++ ((b'\n' ∷ []) ++ (codes "Looking For Partition: " ++ (name ++ (b'\n' ∷ [])))))

same_before :
    (a b : Bytes) (limit : ℕ)
    → SameText a b 0 limit
    → (m n : ℕ) → n < m
    → n < limit
    → ((k : ℕ) → 0 ≤ k → k < n → b k ≢ 0)
    → a n ≡ b n
same_before a b limit h zero n lt lt' before = absurd (omega arith)
same_before a b limit h (suc m) n lt lt' before = h n (omega arith) lt' λ k lo hi z.
    before k lo hi (
      sym (
        same_before a b limit h m k (omega arith) (omega arith)
          (λ i lo' hi'. before i lo' (omega arith)))
      ∙ z)

SameText-flip : (a b : Bytes) (limit : ℕ) → SameText a b 0 limit → SameText b a 0 limit
SameText-flip a b limit h j lo hi before =
    sym (same_before a b limit h (suc j) j (omega arith) hi before)

unused : (gpte : Bytes) → ((j : ℕ) → j < 16 → 0 ≡ gpte j) → (memcmp (λ _. 0) gpte 16 == 0) ≡ true
unused gpte z = let e = (memcmp_lem (λ _. 0) gpte 16).0.1 z in rw e refl

in_use : (gpte : Bytes) → ¬ ((j : ℕ) → j < 16 → 0 ≡ gpte j) → (memcmp (λ _. 0) gpte 16 == 0) ≡ false
in_use gpte nz = elim (Bool-cases (memcmp (λ _. 0) gpte 16 == 0)) [
  | inl z ↦ absurd (nz ((memcmp_lem (λ _. 0) gpte 16).0.0 (ground arith)))
  | inr ne ↦ ne
]

module _ (name : List ℕ) (is_name : IsText name) where
  named-IsBytes : (gpte : Bytes) (n : List ℕ) → IsPartition gpte n → IsBytes (part_name gpte)
  named-IsBytes gpte n p j = rw (p.named j) (text-IsBytes n p.is_text j)

  strncmp-named :
      (gpte : Bytes) (n : List ℕ)
      → IsPartition gpte n
      → (strncmp (text name) (part_name gpte) 32 == 0) ≡ same_text n name
  strncmp-named gpte n p = ground (arith, there, back)
    where
      compare_lem :
          (strncmp (text name) (part_name gpte) 32 ≡ 0) ↔ SameText (text name) (part_name gpte) 0 32
      compare_lem =
          strncmp_lem (text name) (part_name gpte) (text-IsBytes name is_name)
            (named-IsBytes gpte n p) 32

      there : strncmp (text name) (part_name gpte) 32 ≡ 0 → same_text n name ≡ true
      there z =
          let e : n ≡ name = text-injective n name 32 p.is_text is_name p.short (λ j lo hi before.
            sym (p.named j)
            ∙ SameText-flip (text name) (part_name gpte) 32 (compare_lem.0 z) j lo hi
                (λ k lo' hi'. rw (p.named k) (before k lo' hi'))) in
          rw e (same_text_refl name)

      back : same_text n name ≡ true → strncmp (text name) (part_name gpte) 32 ≡ 0
      back t = compare_lem.1 (λ j lo hi before.
          ap (λ (xs : List ℕ). text xs j) (sym (same_text-eq n name t)) ∙ sym (p.named j))

  puts_name-Prints :
      (gpte : Bytes) (n : List ℕ) → IsPartition gpte n → Prints (puts 33 (part_name gpte)) n
  puts_name-Prints gpte n p = record {
    run = λ k.
        puts_lem n (part_name gpte) 33 k p.is_text
          (λ j le. ap (part_name gpte) (omega arith) ∙ p.named j) (omega (arith, p.short));
  }

  print_partition-Prints :
      (gpte : Bytes) (n : List ℕ) (hit : Bool)
      → IsPartition gpte n
      → Prints (print_partition gpte hit) (partition_text n hit)
  unfolding print_partition
  print_partition-Prints gpte n hit p =
      Prints-then (Prints-say "Partition Detected: " (ground arith)) (
        Prints-then (puts_name-Prints gpte n p) (
          Prints-then (Prints-char b'\n')
            (Prints-if hit (Prints-say "System Partition Found :)\n" (ground arith)) Prints-quiet)))

  print_signature-Prints :
      (left i : ℕ) (gpt : Bytes) → Prints (print_signature left i gpt) (signature left i gpt)
  unfolding print_signature
  print_signature-Prints zero i gpt = Prints-quiet
  print_signature-Prints (suc left) i gpt =
      Prints-then (Prints-char (gpt i)) (print_signature-Prints left (i + 1) gpt)

  print_search-Prints :
      (fuel : ℕ) (gpt : Bytes)
      → length name < fuel
      → Prints (print_search fuel gpt (text name)) (search_text gpt name)
  unfolding print_search
  print_search-Prints fuel gpt lt = Prints-then (Prints-say "GPT Signature: " (ground arith)) (
      Prints-then (print_signature-Prints 8 0 gpt) (
        Prints-then (Prints-char b'\n') (
          Prints-then (Prints-say "Looking For Partition: " (ground arith)) (
            Prints-then
              (record {
                run = λ k.
                    puts_lem name (text name) fuel k is_name (λ j le. ap (text name) (omega arith))
                      lt;
              })
              (Prints-char b'\n')))))

  module _ (gpte_size : ℕ) (buf : Bytes) where
    loop-found :
        (f ptr : ℕ) (names : List (List ℕ)) (gpte_found : Bytes)
        → IsEntries gpte_size buf ptr names
        → length names < f
        → Gives
            (find_partition_loop f (text name) gpte_size buf ptr true gpte_found)
            gpte_found
            (names_text name true names)
    unfolding find_partition_loop
    loop-found zero ptr names g e lt = absurd (omega arith)
    loop-found (suc f) ptr [] g (end z) lt = rw (unused (from ptr buf) z) (Gives-answer g)
    loop-found (suc f) ptr (n ∷ names) g (entry p es) lt =
        let rest = loop-found f (ptr + gpte_size) names g es (omega arith) in
        rw (in_use (from ptr buf) p.used, strncmp-named (from ptr buf) n p)
          (elim (Bool-cases (same_text n name)) [
            | inl same ↦
                rw same (Gives-after (print_partition-Prints (from ptr buf) n false p) rest)
            | inr other ↦
                rw other (Gives-after (print_partition-Prints (from ptr buf) n false p) rest)
          ])

    loop-first :
        (f ptr : ℕ) (names : List (List ℕ)) (gpte_found : Bytes)
        → IsEntries gpte_size buf ptr names
        → length names < f
        → Gives
            (find_partition_loop f (text name) gpte_size buf ptr false gpte_found)
            (first_named name gpte_size buf ptr names gpte_found)
            (names_text name false names)
    unfolding find_partition_loop
    loop-first zero ptr names g e lt = absurd (omega arith)
    loop-first (suc f) ptr [] g (end z) lt = rw (unused (from ptr buf) z) (Gives-answer g)
    loop-first (suc f) ptr (n ∷ names) g (entry p es) lt =
        rw (in_use (from ptr buf) p.used, strncmp-named (from ptr buf) n p)
          (elim (Bool-cases (same_text n name)) [
            | inl same ↦ rw same (
                Gives-after (print_partition-Prints (from ptr buf) n true p)
                  (loop-found f (ptr + gpte_size) names (from ptr buf) es (omega arith)))
            | inr other ↦ rw other (
                Gives-after (print_partition-Prints (from ptr buf) n false p)
                  (loop-first f (ptr + gpte_size) names g es (omega arith)))
          ])

  -- On a table whose entries end before the fuel does and have names of 31 single bytes at most,
  -- find_partition_by_name ends, and returns the first entry with the name, or zeroes if there is
  -- none. It prints the signature of the table, the name, and a line for each entry, with a line
  -- more after the first that has the name.
  pub find_partition_by_name_lem :
      (fuel : ℕ) (disk : Disk) (stack : Bytes) (names : List (List ℕ)) (k : Console)
      → IsEntries (sizeof_partition_entry (gpt_header disk stack)) (gpt_entries disk stack) 0 names
      → length names < fuel
      → length name < fuel
      → find_partition_by_name fuel disk stack (text name) k
        ≡ some (
          first_named name
              (sizeof_partition_entry (gpt_header disk stack))
              (gpt_entries disk stack)
              0
              names
              (λ _. 0),
          shown (search_text (gpt_header disk stack) name ++ names_text name false names) k,
        )
  unfolding find_partition_by_name
  find_partition_by_name_lem fuel disk stack names k e lt ltn =
      (Gives-after (print_search-Prints fuel (gpt_header disk stack) ltn) (
          loop-first (sizeof_partition_entry (gpt_header disk stack)) (gpt_entries disk stack) fuel
            0 names (λ _. 0) e lt)).run
        k
