-- ===== src/Paging/Physical/Fill.antt =====
-- The loop of setup_physical_map.
use learning_osdev.Base.{
  ℕ, zero, suc, ◌+◌, ◌*◌, ◌%◌, ◌^◌, ◌≤◌, ◌<◌, ◌≡◌, ◌≢◌, ◌⊎◌, inl, inr, refl, arith, Option, some,
  u64, Bool-cases, ◌==◌, ◌∙◌,
}
use learning_osdev.Mem.{Memory, store64}
use learning_osdev.Mem.Words.{IsBytes, store64-ne, store64-IsBytes}
use learning_osdev.Paging.{
  Paging, entry, set_entry, set_present, set_writable, set_huge_page, set_pte_address, l3_index,
  l4_index,
}
use learning_osdev.Paging.Entries.{entry-store64, entry-store64_ne}
use learning_osdev.Paging.Physical.{physical_map_loop, physical_base}

gib_entry :
    (i : ℕ)
    → i < 512
    → set_huge_page (set_present (set_writable (set_pte_address 0 (u64 (i * 0x40000000)))))
      ≡ i * 2 ^ 30 + 131
unfolding set_huge_page set_present set_writable set_pte_address
gib_entry i lt = let e : u64 (i * 0x40000000) ≡ i * 2 ^ 30 = omega arith in rw e (omega arith)

gib_index : (i : ℕ) → i < 512 → l3_index (physical_base + i * 2 ^ 30) ≡ i
unfolding l3_index
gib_index i lt = omega arith

pub physical_l4 : (i : ℕ) → i < 512 → l4_index (physical_base + i * 2 ^ 30) ≡ 256
unfolding l4_index
physical_l4 i lt = omega arith

-- What the loop leaves: the entries from `i` to `n` of the table map the gigabytes of these
-- numbers, and no other entry of a table changes.
pub record IsFilled (table i n : ℕ) (s : Paging) (result : Option (ℕ × Paging)) : Type 0 where
  pub out : Memory
  pub returns : result ≡ some (physical_base + n * 2 ^ 30, record s { mem = out })
  pub inside : (j : ℕ) → i ≤ j → j < n → entry out table j ≡ j * 2 ^ 30 + 131
  pub outside :
      (t j : ℕ)
      → t % 4096 ≡ 0
      → j < 512
      → (table ≢ t) ⊎ ((j < i) ⊎ (n ≤ j))
      → entry out t j ≡ entry s.mem t j
  pub above : (a : ℕ) → table + 4096 ≤ a → out a ≡ s.mem a
  pub below : (a : ℕ) → a < table → out a ≡ s.mem a
  pub bytes : IsBytes s.mem → IsBytes out

module _ (table : ℕ) (aligned : table % 4096 ≡ 0) where
  IsFilled-step :
      (i n : ℕ) (s : Paging) (result : Option (ℕ × Paging))
      → i < n
      → n ≤ 512
      → IsFilled table
          (i + 1)
          n
          (record s { mem = store64 s.mem (table + 8 * i) (i * 2 ^ 30 + 131) })
          result
      → IsFilled table i n s result
  IsFilled-step i n s result lt le r = record {
    out = r.out;
    returns = r.returns;
    inside = λ j lo hi. elim (Bool-cases (j == i)) [
      | inl e ↦
          let same : j ≡ i = ground arith in
          rw same (
            r.outside table i aligned (omega arith) (inr (inl (omega arith)))
            ∙ entry-store64 s.mem table i (i * 2 ^ 30 + 131) (omega arith))
      | inr ne ↦ r.inside j (ground arith) hi
    ];
    outside = λ t j at jl h.
        r.outside t j at jl (omega arith)
        ∙ entry-store64_ne s.mem table i (i * 2 ^ 30 + 131) t j aligned at (omega arith) jl
            (ground arith);
    above = λ a far.
        r.above a far ∙ store64-ne s.mem (table + 8 * i) (i * 2 ^ 30 + 131) a (inr (omega arith));
    below = λ a near.
        r.below a near ∙ store64-ne s.mem (table + 8 * i) (i * 2 ^ 30 + 131) a (inl (omega arith));
    bytes = λ b. r.bytes (store64-IsBytes (table + 8 * i) (i * 2 ^ 30 + 131) b);
  }

  pub physical_map_loop-IsFilled :
      (left i n : ℕ) (s : Paging)
      → i + left ≡ n
      → n < 512
      → IsFilled table i n s (physical_map_loop left i table (physical_base + i * 2 ^ 30) s)
  unfolding physical_map_loop set_entry
  physical_map_loop-IsFilled zero i n s e lt =
      let same : i ≡ n = omega arith in
      rw same (record {
        out = s.mem;
        returns = refl;
        inside = λ j lo hi. absurd (omega arith);
        outside = λ t j at jl h. refl;
        above = λ a far. refl;
        below = λ a near. refl;
        bytes = λ b. b;
      })
  physical_map_loop-IsFilled (suc left) i n s e lt =
      let next : u64 (physical_base + i * 2 ^ 30 + 0x40000000) ≡ physical_base + (i + 1) * 2 ^ 30 =
        omega arith in
      rw (gib_index i (omega arith), gib_entry i (omega arith), next)
        (IsFilled-step i n s
          (physical_map_loop left (i + 1) table (physical_base + (i + 1) * 2 ^ 30)
            (record s { mem = store64 s.mem (table + 8 * i) (i * 2 ^ 30 + 131) }))
          (omega arith) (omega arith)
          (physical_map_loop-IsFilled left (i + 1) n
            (record s { mem = store64 s.mem (table + 8 * i) (i * 2 ^ 30 + 131) }) (omega arith) lt))
