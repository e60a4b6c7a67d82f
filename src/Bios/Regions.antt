-- ===== src/Bios/Regions.antt =====
-- scan_bios_memmap as a function of the list of the regions.
use learning_osdev.Base.{
  codes, ◌++◌, ℕ, zero, suc, ◌+◌, ◌^◌, ◌≤◌, ◌<◌, ◌≡◌, ◌≢◌, sym, subst, arith, List, [], ◌∷◌, length,
  ◌==◌, if◌then◌else◌, u64, some, false, Bool-cases, inl, inr,
}
use learning_osdev.Print.{Console}
use learning_osdev.Print.Text.{shown}
use learning_osdev.Print.Hex.{hex_text}
use learning_osdev.Print.Decimal.{dec_text}
use learning_osdev.Print.Printer.{
  Prints, Prints-then, Prints-quiet, Prints-char, Prints-say, Prints-putd, Prints-putx64, Prints-if,
}
use learning_osdev.Print.Query.{after, answer, Gives, Gives-answer, Gives-after, >>=-Gives}
use learning_osdev.Bios.{
  BiosMemoryRegion, Memmap, print_type, print_region, print_total, scan_loop, scan_bios_memmap,
}

-- The regions of the list stand from index `i` on, and the first region of type 0 ends them.
pub data IsMap (memmap : Memmap) : ℕ → List BiosMemoryRegion → Type 0 where
  end : {i : ℕ} → (memmap i).type ≡ 0 → IsMap memmap i []
  region :
      {i : ℕ} {rs : List BiosMemoryRegion}
      → (memmap i).type ≢ 0
      → IsMap memmap (i + 1) rs
      → IsMap memmap i (memmap i ∷ rs)

pub IsMap-cong :
    {m n : Memmap} {i : ℕ} {rs : List BiosMemoryRegion}
    → ((j : ℕ) → i ≤ j → j ≤ i + length rs → m j ≡ n j)
    → IsMap m i rs
    → IsMap n i rs
IsMap-cong {i} same (end z) = end (rw (← same i (omega arith) (omega arith)) z)
IsMap-cong {m} {n} {i} same (region {rs} nz rest) =
    let here = same i (omega arith) (omega arith) in
    subst (λ r. IsMap n i (r ∷ rs)) (sym here)
      (region (rw (← here) nz) (IsMap-cong (λ j lo hi. same j (omega arith) (omega arith)) rest))

-- The bytes of free memory.
abbrev pub free_bytes : List BiosMemoryRegion → ℕ
free_bytes [] = 0
free_bytes (r ∷ rs) = (if r.type == 1 then r.map_size else 0) + free_bytes rs

-- What is printed of a region, and of the map.
type_text : ℕ → List ℕ
type_text type =
    if type == 1
    then codes " - FREE MEMORY (1)"
    else if type == 2
    then codes " - RESERVED (2)"
    else if type == 3
    then codes " - ACPI RECLAIM (3)"
    else if type == 4
    then codes " - ACPI NVS (4)"
    else if type == 5
    then codes " - BAD MEMORY (5)"
    else []

pub region_text : BiosMemoryRegion → List ℕ
unfolding type_text
region_text r =
    codes "0x"
    ++ (hex_text 16 (u64 r.base_address)
        ++ (codes " - 0x"
            ++ (hex_text 16 (u64 (u64 (r.base_address + r.map_size)))
                ++ (type_text r.type ++ (b'\n' ∷ [])))))

abbrev regions_text : List BiosMemoryRegion → List ℕ
regions_text [] = []
regions_text (r ∷ rs) = region_text r ++ regions_text rs

abbrev pub map_text : List BiosMemoryRegion → List ℕ
map_text rs =
    regions_text rs
    ++ ((codes "Total Size of Usable Memory: " ++ (dec_text (free_bytes rs) ++ (b'\n' ∷ []))) ++ [])

print_type-Prints : (type : ℕ) → Prints (print_type type) (type_text type)
unfolding print_type type_text
print_type-Prints type = Prints-if (type == 1) (Prints-say " - FREE MEMORY (1)" (ground arith)) (
    Prints-if (type == 2) (Prints-say " - RESERVED (2)" (ground arith)) (
      Prints-if (type == 3) (Prints-say " - ACPI RECLAIM (3)" (ground arith)) (
        Prints-if (type == 4) (Prints-say " - ACPI NVS (4)" (ground arith))
          (Prints-if (type == 5) (Prints-say " - BAD MEMORY (5)" (ground arith)) Prints-quiet))))

print_region-Prints : (r : BiosMemoryRegion) → Prints (print_region r) (region_text r)
unfolding print_region region_text
print_region-Prints r = Prints-then (Prints-say "0x" (ground arith)) (
    Prints-then (Prints-putx64 r.base_address) (
      Prints-then (Prints-say " - 0x" (ground arith)) (
        Prints-then (Prints-putx64 (u64 (r.base_address + r.map_size)))
          (Prints-then (print_type-Prints r.type) (Prints-char b'\n')))))

scan_loop-free :
    (f i : ℕ) (memmap : Memmap) (rs : List BiosMemoryRegion) (total : ℕ)
    → IsMap memmap i rs
    → length rs < f
    → total + free_bytes rs < 2 ^ 64
    → Gives (scan_loop f i memmap total) (total + free_bytes rs) (regions_text rs)
unfolding scan_loop
scan_loop-free zero i memmap rs total m lt fits = absurd (omega arith)
scan_loop-free (suc f) i memmap [] total (end z) lt fits =
    let e : total + 0 ≡ total = omega arith in rw (z, e) (Gives-answer total)
scan_loop-free (suc f) i memmap (r ∷ rs) total (region nz m) lt fits =
    let more : ((memmap i).type == 0) ≡ false = ground arith in
    let line = print_region-Prints (memmap i) in
    elim (Bool-cases ((memmap i).type == 1)) [
      | inl free ↦
          let e : u64 (total + (memmap i).map_size) ≡ total + (memmap i).map_size = ground arith in
          let sum : total + ((memmap i).map_size + free_bytes rs)
              ≡ total + (memmap i).map_size + free_bytes rs =
            omega arith in
          rw (more, free, e, sum)
            (Gives-after line (
              scan_loop-free f (i + 1) memmap rs (total + (memmap i).map_size) m (omega arith)
                (ground arith)))
      | inr other ↦
          let sum : total + (0 + free_bytes rs) ≡ total + free_bytes rs = omega arith in
          rw (more, other, sum)
            (Gives-after line
              (scan_loop-free f (i + 1) memmap rs total m (omega arith) (ground arith)))
    ]

-- On a map that ends, scan_bios_memmap ends within a round more than there are regions, and returns
-- the sum of the sizes of the free regions, if that is less than 2 ^ 64. It prints a line for each
-- region, with its ends and its kind, and the sum.
pub scan_bios_memmap_lem :
    (memmap : Memmap) (rs : List BiosMemoryRegion) (fuel : ℕ) (k : Console)
    → IsMap memmap 0 rs
    → length rs < fuel
    → free_bytes rs < 2 ^ 64
    → scan_bios_memmap fuel memmap k ≡ some (free_bytes rs, shown (map_text rs) k)
unfolding scan_bios_memmap print_total
scan_bios_memmap_lem memmap rs fuel k m lt fits =
    let sum : 0 + free_bytes rs ≡ free_bytes rs = omega arith in
    (>>=-Gives (λ t. after (print_total t) (answer t))
        (rw sum at (scan_loop-free fuel 0 memmap rs 0 m lt (omega arith)))
        (Gives-after
          (Prints-then (Prints-say "Total Size of Usable Memory: " (ground arith))
            (Prints-then (Prints-putd (free_bytes rs) fits) (Prints-char b'\n')))
          (Gives-answer (free_bytes rs)))).run
      k
