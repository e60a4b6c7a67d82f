-- ===== src/Paging/Outside.antt =====
-- A change of the memory above the page tables of paging.c leaves them well-formed and every
-- translation as it was.
use learning_osdev.Base.{ℕ, zero, suc, ◌+◌, ◌*◌, ◌<◌, ◌≡◌, refl, arith, some}
use learning_osdev.Mem.{Memory}
use learning_osdev.Mem.Words.{load64-cong}
use learning_osdev.Paging.{Paging, entry, p4table}
use learning_osdev.Paging.Entries.{frame}
use learning_osdev.Paging.Walk.{index, index-lt, walk, translate}
use learning_osdev.Paging.Invariant.{Owner, IsTables}

module _ {own : Owner} {s : Paging} (tables : IsTables own s) (m : Memory)
    (same : (a : ℕ) → a < s.it → m a ≡ s.mem a) where
  entry-outside : (u k d j : ℕ) → own u ≡ some (k, d) → j < 512 → entry m u j ≡ entry s.mem u j
  unfolding entry
  entry-outside u k d j o jl =
      load64-cong m s.mem (u + 8 * j) (λ a lo hi. same a (omega (arith, tables.placed u k d o)))

  walk-outside : (n u d v : ℕ) → own u ≡ some (n, d) → walk m n u v ≡ walk s.mem n u v
  unfolding walk
  walk-outside zero u d v o = rw (entry-outside u 0 d (index 0 v) o (index-lt 0 v)) refl
  walk-outside (suc n) u d v o = ground (
    arith,
    entry-outside u (suc n) d (index (suc n) v) o (index-lt (suc n) v),
    tables.linked u n d (index (suc n) v) o (index-lt (suc n) v),
    walk-outside n (frame (entry s.mem u (index (suc n) v))) (d * 512 + index (suc n) v) v,
  )

  pub IsTables-outside : IsTables own (record s { mem = m })
  IsTables-outside = record {
    root = tables.root;
    placed = tables.placed;
    linked = λ u n d j o jl p h.
        let q = entry-outside u (suc n) d j o jl in
        rw q (tables.linked u n d j o jl (rw (← q) p) (rw (← q) h));
    cleared = λ u n d j o jl p.
        let q = entry-outside u (suc n) d j o jl in rw q (tables.cleared u n d j o jl (rw (← q) p));
    it_aligned = tables.it_aligned;
  }

  pub translate-outside : (w : ℕ) → translate (record s { mem = m }) w ≡ translate s w
  unfolding translate
  translate-outside w = walk-outside 3 p4table 0 w tables.root
