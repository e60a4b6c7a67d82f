-- ===== src/Paging/Descend.antt =====
-- The way of map_4kb_page and map_2mb_page down the levels of the page tables.
use learning_osdev.Base.{
  ℕ, suc, ◌+◌, ◌*◌, ◌^◌, ◌≤◌, ◌<◌, ◌≡◌, refl, arith, true, false, Option, some, Bool-cases, inl,
  inr, sym, ◌∙◌, ap,
}
use learning_osdev.Mem.{Memory}
use learning_osdev.Mem.Words.{IsBytes}
use learning_osdev.Paging.{present, huge_page, entry, Paging, p4table, next_table}
use learning_osdev.Paging.Entries.{huge_page-zero}
use learning_osdev.Paging.Walk.{
  index, walk, index-lt, walk-table, translate, is_small, small-not_huge,
}
use learning_osdev.Paging.Invariant.{Owner, IsTables}
use learning_osdev.Paging.Link.{IsNext, next_table_lem}
use learning_osdev.Paging.Leaf.{trace}

-- The memory `m` has the present entries of `s` in the tables above level `n + 1`.
abbrev pub Keeps : Owner → ℕ → Paging → Memory → Type 0
Keeps own n s m =
    (u k d j : ℕ)
    → own u ≡ some (k, d)
    → j < 512
    → n < k
    → present (entry s.mem u j) ≡ true
    → entry m u j ≡ entry s.mem u j

-- On the way for the address `v` from the state `start` the table `t` of level `n + 1` is
-- reached in the state `s`, and no translation has changed.
pub record IsAt (v : ℕ) (start : Paging) (n t : ℕ) (s : Paging) : Type 0 where
  pub owner : Owner
  pub prefix : ℕ
  pub tables : IsTables owner s
  pub owned : owner t ≡ some (n, prefix)
  pub on_way : walk s.mem n t v ≡ translate s v
  -- A walk for `v` comes here in every memory that keeps the present entries of higher levels.
  pub path : (m : Memory) → Keeps owner n s m → walk m 3 p4table v ≡ walk m n t v
  pub kept : (w : ℕ) → translate s w ≡ translate start w
  pub traced : (k : ℕ) → k ≤ n → trace k n v prefix ≡ trace k 3 v 0
  pub it_bound : s.it + n * 4096 ≤ start.it + 3 * 4096
  pub it_grows : start.it ≤ s.it
  pub outside : (a : ℕ) → s.it ≤ a → s.mem a ≡ start.mem a
  pub bytes : IsBytes start.mem → IsBytes s.mem
  pub cr3_same : s.cr3 ≡ start.cr3
  pub console_same : s.console ≡ start.console

pub IsAt-root : {own : Owner} (v : ℕ) (s : Paging) → IsTables own s → IsAt v s 3 p4table s
unfolding translate
IsAt-root {own} v s tables = record {
  owner = own;
  prefix = 0;
  tables = tables;
  owned = tables.root;
  on_way = refl;
  path = λ m keeps. refl;
  kept = λ w. refl;
  traced = λ k le. refl;
  it_bound = omega arith;
  it_grows = omega arith;
  outside = λ a le. refl;
  bytes = λ b. b;
  cr3_same = refl;
  console_same = refl;
}

-- What a step down gives: the next table, and the state that it is reached in.
pub record IsDown (v : ℕ) (start : Paging) (n : ℕ) (result : Option (ℕ × Paging)) : Type 0 where
  pub table : ℕ
  pub after : Paging
  pub returns : result ≡ some (table, after)
  pub at : IsAt v start n table after

module _ {v : ℕ} {start : Paging} {n t : ℕ} {s : Paging} (here : IsAt v start (suc n) t s) where
  module _ {result : Option (ℕ × Paging)}
      (x : IsNext here.owner s t n here.prefix (index (suc n) v) result) where
    next_kept : (w : ℕ) → translate x.after w ≡ translate s w
    unfolding translate
    next_kept w = x.kept_walk 3 p4table 0 w here.tables.root

    next_on_way : walk x.after.mem n x.table v ≡ translate x.after v
    next_on_way =
        ap (λ a. walk x.after.mem n a v) (sym x.leads.2)
        ∙ sym (walk-table x.after.mem n t v x.leads.0 x.leads.1)
        ∙ x.kept_walk (suc n) t here.prefix v here.owned
        ∙ here.on_way
        ∙ sym (next_kept v)

    next_path : (m : Memory) → Keeps x.owner n x.after m → walk m 3 p4table v ≡ walk m n x.table v
    next_path m keeps =
        here.path m above
        ∙ walk-table m n t v (rw same x.leads.0) (rw same x.leads.1)
        ∙ rw (same, x.leads.2)
      where
        same : entry m t (index (suc n) v) ≡ entry x.after.mem t (index (suc n) v)
        same =
            keeps t (suc n) here.prefix (index (suc n) v)
              (x.kept_owner t (suc n) here.prefix here.owned) (index-lt (suc n) v) (omega arith)
              x.leads.0

        above : Keeps here.owner (suc n) s m
        above u k d j o jl lt q =
            let e = x.kept_present u k d j o jl q in
            keeps u k d j (x.kept_owner u k d o) jl (omega arith) (rw e q) ∙ e

  next_traced : (k : ℕ) → k ≤ n → trace k n v (here.prefix * 512 + index (suc n) v) ≡ trace k 3 v 0
  next_traced k le = sym (skip k le) ∙ here.traced k (omega arith)
    where
      skip :
          (k : ℕ)
          → k ≤ n
          → trace k (suc n) v here.prefix ≡ trace k n v (here.prefix * 512 + index (suc n) v)
      skip k le = unfold trace in ground arith

  IsDown-next :
      {result : Option (ℕ × Paging)}
      → IsNext here.owner s t n here.prefix (index (suc n) v) result
      → IsDown v start n result
  IsDown-next x = record {
    table = x.table;
    after = x.after;
    returns = x.returns;
    at = record {
      owner = x.owner;
      prefix = here.prefix * 512 + index (suc n) v;
      tables = x.tables;
      owned = x.owned;
      on_way = next_on_way x;
      path = next_path x;
      kept = λ w. next_kept x w ∙ here.kept w;
      traced = next_traced;
      it_bound = omega (arith, here.it_bound, x.it_bound);
      it_grows = omega (arith, here.it_grows, x.it_grows);
      outside = λ a le. x.outside a le ∙ here.outside a (omega (arith, x.it_grows));
      bytes = λ b. x.bytes (here.bytes b);
      cr3_same = x.cr3_same ∙ here.cr3_same;
      console_same = x.console_same ∙ here.console_same;
    };
  }

  pub next_table-IsDown :
      is_small (translate start v) ≡ true
      → s.it + 4096 < 2 ^ 52
      → IsDown v start n (next_table t (index (suc n) v) s)
  next_table-IsDown small room = IsDown-next (
      next_table_lem here.tables t n here.prefix (index (suc n) v) here.owned (index-lt (suc n) v)
        not_huge room)
    where
      not_huge : huge_page (entry s.mem t (index (suc n) v)) ≡ false
      not_huge = elim (Bool-cases (present (entry s.mem t (index (suc n) v)))) [
        | inl p ↦ small-not_huge s.mem n t v (ap is_small (here.on_way ∙ here.kept v) ∙ small) p
        | inr p ↦
            rw
              (here.tables.cleared t n here.prefix (index (suc n) v) here.owned (index-lt (suc n) v)
                p)
              huge_page-zero
      ]
