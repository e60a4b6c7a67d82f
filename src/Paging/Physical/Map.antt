-- ===== src/Paging/Physical/Map.antt =====
-- setup_physical_map of bootloader/cboot/src/paging.c against the translation of addresses by the
-- processor.
use learning_osdev.Base.{
  ℕ, ◌+◌, ◌*◌, ◌/◌, ◌%◌, ◌^◌, ◌≤◌, ◌<◌, ◌≡◌, ◌≢◌, ◌⊎◌, inl, inr, refl, arith, Option, some, u64,
  ◌∙◌, sym, ap,
}
use learning_osdev.Mem.{Memory, memset, store64}
use learning_osdev.Mem.Words.{IsBytes, store64-IsBytes, load64-zero, load64-cong, store64-ne}
use learning_osdev.Mem.Set.{IsMemset, IsMemset-IsBytes, memset_lem}
use learning_osdev.Str.{memcmp}
use learning_osdev.Str.Compare.{memcmp_lem}
use learning_osdev.Paging.{
  Paging, entry, p4table, set_entry, load_newpagetable, set_present, set_writable, set_pte_address,
  ◌>>=◌, ◌>>◌,
}
use learning_osdev.Print.Text.{shown}
use learning_osdev.Paging.Printing.{
  with_console, prints-Prints, IsTables-console, translate-console,
}
use learning_osdev.Paging.Entries.{entry-store64, entry-store64_ne}
use learning_osdev.Paging.Walk.{page, index, translate}
use learning_osdev.Paging.Invariant.{Owner, IsTables}
use learning_osdev.Paging.Physical.{
  physical_base, physical_map_loop, virtual_bytes, setup_physical_map,
}
use learning_osdev.Paging.Physical.Steps.{
  test_text, print_test-Prints, clear_lem, new_page_table_lem,
}
use learning_osdev.Paging.Physical.Fill.{IsFilled, physical_l4, physical_map_loop-IsFilled}
use learning_osdev.Paging.Physical.Tables.{
  IsPhysical, walk-elsewhere, walk-gigabyte, physical_owner, IsTables-physical,
}

-- The gigabytes that cover the size.
abbrev pub gigabytes : ℕ → ℕ
gigabytes total = (total + 0x3fffffff) / 2 ^ 30

-- The addresses below a limit are mapped to themselves.
abbrev pub IsIdentity : Paging → ℕ → Type 0
IsIdentity s limit = (v : ℕ) → v < limit → (k : ℕ) × (translate s v ≡ page k v)

-- `result` is a normal end with well-formed tables, in which the address `a` of physical memory is
-- mapped at `physical_base + a`, up to whole gigabytes, the other 511 parts of the address space
-- are translated as before, and the register cr3 holds the top table.
pub record IsPhysicalMap (total : ℕ) (s : Paging) (result : Option (ℕ × Paging)) : Type 0 where
  pub neq : ℕ
  pub after : Paging
  pub owner : Owner
  pub returns : result ≡ some (neq, after)
  pub well_formed : IsTables owner after
  pub mapped :
      (a : ℕ) → a < gigabytes total * 2 ^ 30 → translate after (physical_base + a) ≡ page 2 a
  pub others : (w : ℕ) → index 3 w ≢ 256 → translate after w ≡ translate s w
  pub loaded : after.cr3 ≡ p4table
  -- What is printed, and what else a client needs.
  pub printed : after.console ≡ shown (test_text neq) s.console
  pub it_bound : after.it ≡ s.it + 4096
  pub outside : (a : ℕ) → s.it + 4096 ≤ a → after.mem a ≡ s.mem a
  pub below : (a : ℕ) → a < p4table → after.mem a ≡ s.mem a
  pub bytes : IsBytes s.mem → IsBytes after.mem

module _ {own : Owner} (s : Paging) (tables : IsTables own s) (room : s.it + 4096 < 2 ^ 52)
    (total : ℕ) (few : total ≤ 511 * 2 ^ 30) where
  -- The state after the table is allocated and cleared again.
  abbrev cleared_state : Memory → Paging
  cleared_state m = record s { mem = m; it = s.it + 4096 }

  -- The state at the end.
  abbrev final_state : Memory → Paging
  final_state m = record s {
    mem = store64 m (p4table + 8 * 256) (s.it + 3);
    it = s.it + 4096;
    cr3 = p4table;
  }

  link_value : set_writable (set_present (set_pte_address 0 s.it)) ≡ s.it + 3
  unfolding set_writable set_present set_pte_address
  link_value = omega (arith, tables.it_aligned)

  module _ (c1 : IsMemset s.it 0 4096 s.mem (memset s.it 0 4096 s.mem))
      (c2 : IsMemset s.it 0 4096 c1.out (memset s.it 0 4096 c1.out))
      (f : IsFilled s.it 0
        (gigabytes total)
        (cleared_state c2.out)
        (physical_map_loop (gigabytes total) 0 s.it physical_base (cleared_state c2.out))) where
    root_ne : s.it ≢ p4table
    root_ne = ground (arith, tables.placed p4table 3 0 tables.root)

    cleared-entry :
        (u k d j : ℕ) → own u ≡ some (k, d) → j < 512 → entry c2.out u j ≡ entry s.mem u j
    unfolding entry
    cleared-entry u k d j o jl =
        let (at, low) = tables.placed u k d o in
        load64-cong c2.out s.mem (u + 8 * j)
          (λ a lo hi. c2.outside a (omega arith) ∙ c1.outside a (omega arith))

    cleared-entries_zero : (j : ℕ) → j < 512 → entry c2.out s.it j ≡ 0
    unfolding entry
    cleared-entries_zero j jl =
        load64-zero c2.out (s.it + 8 * j) (λ a lo hi. ground (arith, c2.inside a))

    final-entry :
        (t j : ℕ)
        → t % 4096 ≡ 0
        → j < 512
        → (p4table ≢ t) ⊎ (256 ≢ j)
        → entry (final_state f.out).mem t j ≡ entry f.out t j
    final-entry t j at jl ne =
        entry-store64_ne f.out p4table 256 (s.it + 3) t j refl at (omega arith) jl ne

    IsPhysical-final : IsPhysical own (gigabytes total) s.it s.mem (final_state f.out).mem
    IsPhysical-final = record {
      now = entry-store64 f.out p4table 256 (s.it + 3) (omega arith);
      gigabytes = λ j lt.
          final-entry s.it j tables.it_aligned (omega arith) (inl (λ e. root_ne (sym e)))
          ∙ f.inside j (omega arith) lt;
      rest = λ j ge jl.
          final-entry s.it j tables.it_aligned jl (inl (λ e. root_ne (sym e)))
          ∙ f.outside s.it j tables.it_aligned jl (inr (inr ge))
          ∙ cleared-entries_zero j jl;
      same = λ u k d j o jl ne.
          let (at, low) = tables.placed u k d o in
          final-entry u j at jl (ground arith)
          ∙ f.outside u j at jl (inl (λ e. omega arith))
          ∙ cleared-entry u k d j o jl;
    }

    -- The outcome of the test, and the state after it is printed.
    abbrev outcome : ℕ
    outcome =
        memcmp (virtual_bytes (final_state f.out) 0)
          (virtual_bytes (final_state f.out) physical_base) 1048576

    abbrev printed_state : Paging
    printed_state = with_console (shown (test_text outcome) s.console) (final_state f.out)

    setup_physical_map-runs : setup_physical_map total s ≡ some (outcome, printed_state)
    unfolding setup_physical_map set_entry load_newpagetable
    setup_physical_map-runs =
        let g : u64 (total + 0x3fffffff) / 0x40000000 ≡ gigabytes total = omega arith in
        rw (new_page_table_lem s c1.out (omega arith) c1.returns, ◌>>=◌)
          (rw
            (
              ◌>>◌,
              clear_lem s.it 4096 (record s { mem = c1.out; it = s.it + 4096 }) c2.out c2.returns,
              ◌>>=◌,
              g,
            )
            (rw (f.returns, ◌>>=◌)
              (rw (physical_l4 (gigabytes total) (omega arith), link_value)
                (rw (◌>>◌, prints-Prints (final_state f.out) (print_test-Prints outcome), ◌>>=◌)
                  refl))))

    mapped-final :
        (a : ℕ)
        → a < gigabytes total * 2 ^ 30
        → translate (final_state f.out) (physical_base + a) ≡ page 2 a
    unfolding translate
    mapped-final a lt =
        let top : index 3 (physical_base + a) ≡ 256 = unfold index in omega arith in
        let gib : index 2 (physical_base + a) ≡ a / 2 ^ 30 = unfold index in omega arith in
        let at : a / 2 ^ 30 * 2 ^ 30 + (physical_base + a) % 2 ^ 30 ≡ a = omega arith in
        walk-gigabyte tables (omega arith) (omega arith) IsPhysical-final (physical_base + a) top
          (rw gib (omega arith))
        ∙ rw (gib, at) refl

    others-final : (w : ℕ) → index 3 w ≢ 256 → translate (final_state f.out) w ≡ translate s w
    unfolding translate
    others-final w ne = walk-elsewhere tables (omega arith) (omega arith) IsPhysical-final w ne

    same_bytes :
        0 < total
        → IsIdentity s (2 ^ 20)
        → (j : ℕ) → j < 1048576
        → virtual_bytes (final_state f.out) 0 j ≡ virtual_bytes (final_state f.out) physical_base j
    unfolding virtual_bytes
    same_bytes pos identity j lt =
        let low : u64 (0 + j) ≡ j = omega arith in
        let high : u64 (physical_base + j) ≡ physical_base + j = omega arith in
        let ne : index 3 j ≢ 256 = unfold index in λ e. omega arith in
        rw
          (low, high, others-final j ne, (identity j (omega arith)).1, mapped-final j (omega arith))
          refl

    passes-final : 0 < total → IsIdentity s (2 ^ 20) → outcome ≡ 0
    passes-final pos identity =
        (memcmp_lem (virtual_bytes (final_state f.out) 0)
            (virtual_bytes (final_state f.out) physical_base) 1048576).0.1
          (same_bytes pos identity)

    IsPhysicalMap-final : IsPhysicalMap total s (setup_physical_map total s)
    IsPhysicalMap-final = rw setup_physical_map-runs (record {
      neq = outcome;
      after = printed_state;
      owner = physical_owner tables (omega arith) (omega arith) IsPhysical-final;
      returns = refl;
      well_formed =
          IsTables-console (shown (test_text outcome) s.console)
            (IsTables-physical tables (omega arith) (omega arith) IsPhysical-final);
      mapped = λ a lt.
          translate-console (final_state f.out) (shown (test_text outcome) s.console)
            (physical_base + a)
          ∙ mapped-final a lt;
      others = λ w ne.
          translate-console (final_state f.out) (shown (test_text outcome) s.console) w
          ∙ others-final w ne;
      loaded = refl;
      printed = refl;
      it_bound = refl;
      outside = λ a le.
          store64-ne f.out (p4table + 8 * 256) (s.it + 3) a
            (inr (omega (arith, tables.placed p4table 3 0 tables.root)))
          ∙ f.above a le
          ∙ c2.outside a (inr (omega arith))
          ∙ c1.outside a (inr (omega arith));
      below = λ a lt.
          let root = tables.placed p4table 3 0 tables.root in
          store64-ne f.out (p4table + 8 * 256) (s.it + 3) a (inl (omega arith))
          ∙ f.below a (omega (arith, root))
          ∙ c2.outside a (inl (omega (arith, root)))
          ∙ c1.outside a (inl (omega (arith, root)));
      bytes = λ b.
          let cleared = IsMemset-IsBytes (omega arith) c2 (IsMemset-IsBytes (omega arith) c1 b) in
          store64-IsBytes (p4table + 8 * 256) (s.it + 3) (f.bytes cleared);
    })

  -- The two memories after the table is cleared, and the loop.
  module _ {R : Type 0}
      (use_runs : (c1 : IsMemset s.it 0 4096 s.mem (memset s.it 0 4096 s.mem))
          (c2 : IsMemset s.it 0 4096 c1.out (memset s.it 0 4096 c1.out))
        → IsFilled s.it 0
            (gigabytes total)
            (cleared_state c2.out)
            (physical_map_loop (gigabytes total) 0 s.it physical_base (cleared_state c2.out))
        → R) where
    with_runs : R
    with_runs =
        let c1 = memset_lem s.it 0 4096 s.mem (omega arith) (omega arith) in
        let c2 = memset_lem s.it 0 4096 c1.out (omega arith) (omega arith) in
        use_runs c1 c2 (
          physical_map_loop-IsFilled s.it tables.it_aligned (gigabytes total) 0 (gigabytes total)
            (cleared_state c2.out) (omega arith) (omega arith))

  -- Up to 511 GiB and with room for a table below 2 ^ 52, setup_physical_map returns with
  -- well-formed tables and cr3 loaded; then each address `a` of physical memory, up to whole
  -- gigabytes, is translated from 0xFFFF800000000000 + `a`, and addresses outside of that 512 GiB
  -- part are translated as before. The outcome of the test is printed.
  pub setup_physical_map_lem : IsPhysicalMap total s (setup_physical_map total s)
  setup_physical_map_lem = with_runs IsPhysicalMap-final

  -- Up to 511 GiB and with room for a table below 2 ^ 52, if there is memory and the first megabyte
  -- was mapped to itself, the test at the end of setup_physical_map finds no difference.
  pub setup_physical_map_passes :
      0 < total
      → IsIdentity s (2 ^ 20)
      → (after : Paging) × (setup_physical_map total s ≡ some (0, after))
  setup_physical_map_passes pos identity = with_runs (λ c1 c2 f. (
    printed_state c1 c2 f,
    setup_physical_map-runs c1 c2 f
        ∙ ap (λ n. some (n, printed_state c1 c2 f)) (passes-final c1 c2 f pos identity),
  ))
