-- ===== src/Paging/Listing/Lines.antt =====
-- The text that print_pagetable prints.
use learning_osdev.Base.{
  ℕ, zero, suc, ◌+◌, ◌-◌, ◌≤◌, ◌<◌, ◌≡◌, arith, List, [], ◌∷◌, ◌++◌, replicate, codes,
  if◌then◌else◌, some, u64, Bool, true, false, not, ◌==◌, ◌*◌, ◌/◌, ◌%◌, ◌^◌,
}
use learning_osdev.Mem.{Memory, load64}
use learning_osdev.Print.{Console}
use learning_osdev.Print.Text.{shown}
use learning_osdev.Print.Hex.{hex_text}
use learning_osdev.Print.Decimal.{dec_text}
use learning_osdev.Print.Printer.{
  Printer, quiet, Prints, Prints-then, Prints-quiet, Prints-char, Prints-say, Prints-putd,
  Prints-putx64, Prints-if,
}
use learning_osdev.Paging.{present, huge_page, get_pte_address, entry}
use learning_osdev.Paging.Listing.{
  indent, print_line, descends, print_entry, print_entries, print_pagetable,
}

-- The bits of an entry: 0 says that it is present, 7 that it maps a huge page, and 11 to 52 are the
-- address.
abbrev is_used : ℕ → Bool
is_used raw = raw % 2 == 1

abbrev is_huge : ℕ → Bool
is_huge raw = raw / 128 % 2 == 1

abbrev address_in : ℕ → ℕ
address_in raw = raw / 2048 % 2 ^ 42 * 2048

-- A line: the level, the index, the entry and the address in it.
unfoldable pub line_text : ℕ → ℕ → ℕ → List ℕ
line_text level i raw =
    replicate (4 - level) b' '
    ++ (codes "PT"
        ++ (dec_text level
            ++ ((b'[' ∷ [])
                ++ (dec_text i
                    ++ ((b']' ∷ [])
                        ++ (codes " = "
                            ++ (hex_text 16 (u64 raw)
                                ++ (codes "; paddr = "
                                    ++ (hex_text 16 (u64 (address_in raw)) ++ (b'\n' ∷ []))))))))))

-- The entry with the index `i`: a line if it is present, and behind it the lines `below` of the table
-- that it leads to.
abbrev entry_text : ℕ → ℕ → ℕ → List ℕ → List ℕ
entry_text level i raw below = if is_used raw then line_text level i raw ++ below else []

-- The lines of the entries from `i` on, for the lines of the tables that they lead to.
unfoldable pub entries_text : Memory → (ℕ → List ℕ) → ℕ → ℕ → ℕ → ℕ → List ℕ
entries_text m below level table zero i = []
entries_text m below level table (suc left) i =
    entry_text level i (load64 m (table + 8 * i)) (below (load64 m (table + 8 * i)))
    ++ entries_text m below level table left (i + 1)

-- The tables of each level. The entries of level 1 lead to pages, those of levels 2 and 3 to tables
-- unless they map a huge page, and those of level 4 always to tables.
abbrev table1_text : Memory → ℕ → List ℕ
table1_text m table = entries_text m (λ raw. []) 1 table 512 0

abbrev table2_text : Memory → ℕ → List ℕ
table2_text m table =
    entries_text m (λ raw. if is_huge raw then [] else table1_text m (address_in raw)) 2 table 512 0

abbrev table3_text : Memory → ℕ → List ℕ
table3_text m table =
    entries_text m (λ raw. if is_huge raw then [] else table2_text m (address_in raw)) 3 table 512 0

abbrev table4_text : Memory → ℕ → List ℕ
table4_text m table = entries_text m (λ raw. table3_text m (address_in raw)) 4 table 512 0

unfoldable pub table_text : Memory → ℕ → ℕ → List ℕ
table_text m zero table = entries_text m (λ raw. []) 0 table 512 0
table_text m (suc zero) table = table1_text m table
table_text m (suc (suc zero)) table = table2_text m table
table_text m (suc (suc (suc zero))) table = table3_text m table
table_text m (suc (suc (suc (suc level)))) table = table4_text m table

indent-Prints : (n : ℕ) → Prints (indent n) (replicate n b' ')
unfolding indent
indent-Prints zero = Prints-quiet
indent-Prints (suc n) = Prints-then (Prints-char b' ') (indent-Prints n)

print_line-Prints :
    (level i raw : ℕ)
    → level ≤ 4
    → i < 512
    → Prints (print_line level i raw) (line_text level i raw)
unfolding print_line line_text get_pte_address
print_line-Prints level i raw le lt = Prints-then (indent-Prints (4 - level)) (
    Prints-then (Prints-say "PT" (ground arith)) (
      Prints-then (Prints-putd level (omega arith)) (
        Prints-then (Prints-char b'[') (
          Prints-then (Prints-putd i (omega arith)) (
            Prints-then (Prints-char b']') (
              Prints-then (Prints-say " = " (ground arith)) (
                Prints-then (Prints-putx64 raw) (
                  Prints-then (Prints-say "; paddr = " (ground arith))
                    (Prints-then (Prints-putx64 (get_pte_address raw)) (Prints-char b'\n'))))))))))

Prints-unless :
    {p : Printer} {xs : List ℕ} (b : Bool)
    → Prints p xs
    → Prints (if not b then p else quiet) (if b then [] else xs)
Prints-unless true h = Prints-quiet
Prints-unless false h = h

module _ (m : Memory) (level : ℕ) (le : level ≤ 4) (sub : ℕ → Printer) (below : ℕ → List ℕ)
    (prints : (raw : ℕ)
      → Prints (if descends level raw then sub (get_pte_address raw) else quiet) (below raw))
    (table : ℕ) where
  print_entries-Prints :
      (left i : ℕ)
      → i + left ≤ 512
      → Prints (print_entries m sub level table left i) (entries_text m below level table left i)
  unfolding print_entries entries_text print_entry entry present
  print_entries-Prints zero i fits = Prints-quiet
  print_entries-Prints (suc left) i fits =
      Prints-then
        (Prints-if (is_used (load64 m (table + 8 * i)))
          (Prints-then (print_line-Prints level i (load64 m (table + 8 * i)) le (omega arith))
            (prints (load64 m (table + 8 * i))))
          Prints-quiet)
        (print_entries-Prints left (i + 1) (omega arith))

module _ (m : Memory) where
  table1-Prints : (table : ℕ) → Prints (print_pagetable m 1 table) (table1_text m table)
  unfolding print_pagetable descends
  table1-Prints table =
      print_entries-Prints m 1 (omega arith) (print_pagetable m 0) (λ raw. []) (λ raw. Prints-quiet)
        table 512 0 (omega arith)

  table2-Prints : (table : ℕ) → Prints (print_pagetable m 2 table) (table2_text m table)
  unfolding print_pagetable descends huge_page get_pte_address
  table2-Prints table =
      print_entries-Prints m 2 (omega arith) (print_pagetable m 1)
        (λ raw. if is_huge raw then [] else table1_text m (address_in raw))
        (λ raw. Prints-unless (is_huge raw) (table1-Prints (address_in raw))) table 512 0
        (omega arith)

  table3-Prints : (table : ℕ) → Prints (print_pagetable m 3 table) (table3_text m table)
  unfolding print_pagetable descends huge_page get_pte_address
  table3-Prints table =
      print_entries-Prints m 3 (omega arith) (print_pagetable m 2)
        (λ raw. if is_huge raw then [] else table2_text m (address_in raw))
        (λ raw. Prints-unless (is_huge raw) (table2-Prints (address_in raw))) table 512 0
        (omega arith)

  pub print_pagetable-Prints :
      (level table : ℕ)
      → level ≤ 4
      → Prints (print_pagetable m level table) (table_text m level table)
  unfolding print_pagetable table_text descends get_pte_address
  print_pagetable-Prints zero table le =
      print_entries-Prints m 0 le (λ t. quiet) (λ raw. []) (λ raw. Prints-quiet) table 512 0
        (omega arith)
  print_pagetable-Prints (suc zero) table le = table1-Prints table
  print_pagetable-Prints (suc (suc zero)) table le = table2-Prints table
  print_pagetable-Prints (suc (suc (suc zero))) table le = table3-Prints table
  print_pagetable-Prints (suc (suc (suc (suc zero)))) table le =
      print_entries-Prints m 4 le (print_pagetable m 3) (λ raw. table3_text m (address_in raw))
        (λ raw. table3-Prints (address_in raw)) table 512 0 (omega arith)
  print_pagetable-Prints (suc (suc (suc (suc (suc level))))) table le = absurd (omega arith)

-- From a level of at most 4, print_pagetable ends, and prints the lines of the present entries of
-- the table in order, each followed by the lines of the table that it leads to: below an entry of
-- level 4, and below one of level 2 or 3 without the bit for a huge page.
pub print_pagetable_lem :
    (m : Memory) (level table : ℕ) (k : Console)
    → level ≤ 4
    → print_pagetable m level table k ≡ some (shown (table_text m level table) k)
print_pagetable_lem m level table k le = (print_pagetable-Prints m level table le).run k
