-- ===== src/Paging/Link.antt =====
-- next_table of the model: what the block of paging.c that enters or allocates a table does to the
-- tables and to every translation.
use learning_osdev.Base.{
  ℕ, suc, ◌+◌, ◌*◌, ◌^◌, ◌≤◌, ◌<◌, ◌≡◌, ◌≢◌, ◌⊎◌, inl, inr, refl, arith, true, false, Option, some,
  Bool-cases, ◌∙◌, u64,
}
use learning_osdev.Mem.{Memory, store64, memset}
use learning_osdev.Mem.Words.{IsBytes, store64-IsBytes, store64-ne, load64-zero, load64-cong}
use learning_osdev.Mem.Set.{IsMemset, memset_lem}
use learning_osdev.Paging.{present, huge_page, entry, Paging, next_table, new_page_table, ◌>>=◌}
use learning_osdev.Paging.Entries.{
  frame, link-present, link-small, link-frame, set_pte_address-zero, set_present-new,
  set_writable-new, store64-store64, entry-store64, entry-store64_ne,
}
use learning_osdev.Paging.Walk.{walk}
use learning_osdev.Paging.Invariant.{Owner, IsTables}
use learning_osdev.Paging.Extend.{
  IsExtended, same_cases, walk-extended, extended_owner, extended-new, extended-old, old_ne,
  IsTables-extended,
}

-- What next_table does: `result` is a table that the entry now leads to, every table is still
-- where it was, no translation changes, and a present entry stays what it is.
pub record IsNext (own : Owner) (s : Paging) (t n c i : ℕ) (result : Option (ℕ × Paging))
    : Type 0 where
  pub table : ℕ
  pub after : Paging
  pub owner : Owner
  pub returns : result ≡ some (table, after)
  pub tables : IsTables owner after
  pub owned : owner table ≡ some (n, c * 512 + i)
  pub kept_owner : (u k d : ℕ) → own u ≡ some (k, d) → owner u ≡ some (k, d)
  pub kept_walk : (k u d v : ℕ) → own u ≡ some (k, d) → walk after.mem k u v ≡ walk s.mem k u v
  pub kept_present :
      (u k d j : ℕ)
      → own u ≡ some (k, d)
      → j < 512
      → present (entry s.mem u j) ≡ true
      → entry after.mem u j ≡ entry s.mem u j
  pub leads :
      (present (entry after.mem t i) ≡ true)
      × (huge_page (entry after.mem t i) ≡ false)
      × (frame (entry after.mem t i) ≡ table)
  pub it_bound : after.it ≤ s.it + 4096
  pub it_grows : s.it ≤ after.it
  pub outside : (a : ℕ) → after.it ≤ a → after.mem a ≡ s.mem a
  pub bytes : IsBytes s.mem → IsBytes after.mem
  pub cr3_same : after.cr3 ≡ s.cr3
  pub console_same : after.console ≡ s.console

module _ {own : Owner} {s : Paging} (tables : IsTables own s) (t n c i : ℕ)
    (owned : own t ≡ some (suc n, c)) (below : i < 512)
    (small : huge_page (entry s.mem t i) ≡ false) (room : s.it + 4096 < 2 ^ 52) where
  next_table-present : present (entry s.mem t i) ≡ true → IsNext own s t n c i (next_table t i s)
  unfolding next_table
  next_table-present p =
      let l = tables.linked t n c i owned below p small in
      rw p (record {
        table = frame (entry s.mem t i);
        after = s;
        owner = own;
        returns = rw l.1;
        tables = tables;
        owned = l.0;
        kept_owner = λ u k d o. o;
        kept_walk = λ k u d v o. refl;
        kept_present = λ u k d j o jl q. refl;
        leads = (p, small, refl);
        it_bound = omega arith;
        it_grows = omega arith;
        outside = λ a le. refl;
        bytes = λ b. b;
        cr3_same = refl;
        console_same = refl;
      })

  -- The memory after the new table is cleared and linked.
  abbrev linked_mem : Memory → Memory
  linked_mem m = store64 m (t + 8 * i) (s.it + 3)

  module _ (cleared : IsMemset s.it 0 4096 s.mem (memset s.it 0 4096 s.mem)) where
    cleared-zero : (a : ℕ) → s.it ≤ a → a < s.it + 4096 → cleared.out a ≡ 0
    cleared-zero a lo hi = ground (arith, cleared.inside a lo hi)

    cleared-IsBytes : IsBytes s.mem → IsBytes cleared.out
    cleared-IsBytes b a = ground (arith, cleared-zero a, cleared.outside a, b a)

    -- The entries of the tables that were there are not in the range that is cleared.
    cleared-entry :
        (u k d j : ℕ) → own u ≡ some (k, d) → j < 512 → entry cleared.out u j ≡ entry s.mem u j
    unfolding entry
    cleared-entry u k d j o jl =
        let (at, low) = tables.placed u k d o in
        load64-cong cleared.out s.mem (u + 8 * j) (λ a lo hi. cleared.outside a (omega arith))

    cleared-entries_zero : (j : ℕ) → j < 512 → entry cleared.out s.it j ≡ 0
    unfolding entry
    cleared-entries_zero j jl =
        load64-zero cleared.out (s.it + 8 * j)
          (λ a lo hi. cleared-zero a (omega arith) (omega arith))

    new_page_table_lem :
        new_page_table s ≡ some (s.it, record s { mem = cleared.out; it = s.it + 4096 })
    unfolding new_page_table
    new_page_table_lem =
        let e : u64 (s.it + 4096) ≡ s.it + 4096 = omega arith in ground (arith, cleared.returns)

    t_ne : t ≢ s.it
    t_ne = ground (arith, tables.placed t (suc n) c owned)

    clear-entries :
        present (entry s.mem t i) ≡ false
        → IsExtended own t n c i s.it s.mem (linked_mem cleared.out)
    clear-entries absent = record {
      owned = owned;
      below = below;
      was_absent = absent;
      now = entry-store64 cleared.out t i (s.it + 3) (omega arith);
      empty = λ j jl.
          entry-store64_ne cleared.out t i (s.it + 3) s.it j (tables.placed t (suc n) c owned).0
            tables.it_aligned below jl (inl t_ne)
          ∙ cleared-entries_zero j jl;
      same = λ u k d j o jl ne.
          entry-store64_ne cleared.out t i (s.it + 3) u j (tables.placed t (suc n) c owned).0
            (tables.placed u k d o).0 below jl ne
          ∙ cleared-entry u k d j o jl;
    }

    next_table-absent :
        present (entry s.mem t i) ≡ false
        → next_table t i s
          ≡ some (s.it, record s { mem = linked_mem cleared.out; it = s.it + 4096 })
    unfolding next_table
    next_table-absent p =
        rw
          (
            p,
            new_page_table_lem,
            ◌>>=◌,
            cleared-entry t (suc n) c i owned below,
            tables.cleared t n c i owned below p,
            set_pte_address-zero s.it tables.it_aligned (omega arith),
          )
          (rw (
            entry-store64 cleared.out t i s.it (omega arith),
            set_present-new s.it tables.it_aligned (omega arith),
            store64-store64 cleared.out (t + 8 * i) s.it (s.it + 1),
            entry-store64 cleared.out t i (s.it + 1) (omega arith),
            set_writable-new s.it tables.it_aligned (omega arith),
            store64-store64 cleared.out (t + 8 * i) (s.it + 1) (s.it + 3),
          ))

    next_table-new : present (entry s.mem t i) ≡ false → IsNext own s t n c i (next_table t i s)
    next_table-new p =
        let x = clear-entries p in
        let low : s.it < 2 ^ 52 = omega arith in
        let new = tables.it_aligned in
        rw (next_table-absent p) (record {
          table = s.it;
          after = record s { mem = linked_mem cleared.out; it = s.it + 4096 };
          owner = extended_owner tables new low x;
          returns = refl;
          tables = IsTables-extended tables new low x;
          owned = extended-new tables new low x;
          kept_owner =
              λ u k d o. rw (extended-old tables new low x u (old_ne tables new low x u k d o)) o;
          kept_walk = walk-extended tables new low x;
          kept_present = λ u k d j o jl q. x.same u k d j o jl (other u j q p);
          leads = (
            rw x.now (link-present s.it new low),
            rw x.now (link-small s.it new low),
            rw x.now (link-frame s.it new low),
          );
          it_bound = omega arith;
          it_grows = omega arith;
          outside = λ a le.
              store64-ne cleared.out (t + 8 * i) (s.it + 3) a
                (inr (omega (arith, tables.placed t (suc n) c owned)))
              ∙ cleared.outside a (inr (omega arith));
          bytes = λ b. store64-IsBytes (t + 8 * i) (s.it + 3) (cleared-IsBytes b);
          cr3_same = refl;
          console_same = refl;
        })
      where
        other :
            (u j : ℕ)
            → present (entry s.mem u j) ≡ true
            → present (entry s.mem t i) ≡ false
            → (t ≢ u) ⊎ (i ≢ j)
        other u j q p = elim (same_cases t u i j) [
          | inl (e, f) ↦ absurd (ground arith)
          | inr ne ↦ ne
        ]

  pub next_table_lem : IsNext own s t n c i (next_table t i s)
  next_table_lem = elim (Bool-cases (present (entry s.mem t i))) [
    | inl p ↦ next_table-present p
    | inr p ↦ next_table-new (memset_lem s.it 0 4096 s.mem (omega arith) (omega arith)) p
  ]
