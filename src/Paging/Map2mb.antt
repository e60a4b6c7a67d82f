-- ===== src/Paging/Map2mb.antt =====
-- map_2mb_page of bootloader/cboot/src/paging.c against the translation of
-- addresses by the processor.
use learning_osdev.Base.{
  ℕ, ◌+◌, ◌*◌, ◌%◌, ◌^◌, ◌<◌, ◌≡◌, refl, arith, true, some, inl, inr, sym, ◌∙◌,
}
use learning_osdev.Mem.{store64}
use learning_osdev.Mem.Words.{store64-ne, store64-IsBytes}
use learning_osdev.Paging.{Paging, p4table, next_table, map_2mb_page, ◌>>=◌}
use learning_osdev.Paging.Entries.{
  huge-present, huge-huge_page, huge-frame, set_huge_page-new, set_pte_address-zero,
  set_present-new, set_writable-new, store64-store64, entry-store64, entry-store64_ne,
}
use learning_osdev.Paging.Walk.{index, walk, index-lt, translate, is_small, page, leaf}
use learning_osdev.Paging.Invariant.{Owner, IsTables}
use learning_osdev.Paging.Leaf.{
  trace_here1, trace_here1, trace_2mb, IsLeafSet, walk-other, IsTables-leaf,
}
use learning_osdev.Paging.Descend.{IsAt, IsAt-root, next_table-IsDown}
use learning_osdev.Paging.SamePage.{same_2mb, walk-same_2mb}
use learning_osdev.Paging.Mapped.{indices, IsMapped}

module _ (v p : ℕ) (s : Paging) where
  -- The entry of the last level is set.
  abbrev mapped_2mb : ℕ → Paging → Paging
  mapped_2mb t a = record a { mem = store64 a.mem (t + 8 * index 1 v) (p + 131) }

  module _ (aligned : p % 2 ^ 21 ≡ 0) (low : p < 2 ^ 52) where
    even : p % 4096 ≡ 0
    even = omega arith

    map_2mb_page-runs :
        {t3 t1 : ℕ} {s3 s1 : Paging}
        → next_table p4table (index 3 v) s ≡ some (t3, s3)
        → next_table t3 (index 2 v) s3 ≡ some (t1, s1)
        → map_2mb_page v p s ≡ some (tt, mapped_2mb t1 s1)
    unfolding map_2mb_page
    map_2mb_page-runs {t1} {s1} e3 e2 =
        rw (◌>>=◌, (indices v).0, e3)
          (rw (◌>>=◌, (indices v).1, e2)
            (rw (indices v).2 (
              rw (
                entry-store64 s1.mem t1 (index 1 v) 0 (omega arith),
                set_pte_address-zero p even low,
                store64-store64 s1.mem (t1 + 8 * index 1 v) 0 p,
                entry-store64 s1.mem t1 (index 1 v) p (omega arith),
                set_present-new p even low,
                store64-store64 s1.mem (t1 + 8 * index 1 v) p (p + 1),
                entry-store64 s1.mem t1 (index 1 v) (p + 1) (omega arith),
                set_writable-new p even low,
                store64-store64 s1.mem (t1 + 8 * index 1 v) (p + 1) (p + 3),
                entry-store64 s1.mem t1 (index 1 v) (p + 3) (omega arith),
                set_huge_page-new p aligned,
                store64-store64 s1.mem (t1 + 8 * index 1 v) (p + 3) (p + 131),
              ))))

    IsLeafSet-2mb :
        {t1 : ℕ} {s1 : Paging} (at : IsAt v s 1 t1 s1)
        → IsLeafSet at.owner t1 1 at.prefix (index 1 v) s1.mem (mapped_2mb t1 s1).mem
    IsLeafSet-2mb {t1} {s1} at =
        let now = entry-store64 s1.mem t1 (index 1 v) (p + 131) (omega arith) in
        record {
          owned = at.owned;
          is_present = rw now (huge-present p aligned);
          is_leaf = inr (rw now (huge-huge_page p aligned));
          same = λ u n d j o jl ne.
              entry-store64_ne s1.mem t1 (index 1 v) (p + 131) u j
                (at.tables.placed t1 1 at.prefix at.owned).0 (at.tables.placed u n d o).0
                (index-lt 1 v) jl ne;
        }

    leaf-2mb : (t1 : ℕ) (s1 : Paging) → walk (mapped_2mb t1 s1).mem 1 t1 v ≡ page 1 (p + v % 2 ^ 21)
    unfolding walk leaf
    leaf-2mb t1 s1 = rw (
      entry-store64 s1.mem t1 (index 1 v) (p + 131) (omega arith),
      huge-present p aligned,
      huge-huge_page p aligned,
      huge-frame p aligned low,
    )

    IsMapped-2mb :
        {t1 : ℕ} {s1 : Paging} (at : IsAt v s 1 t1 s1)
        → IsMapped 1 21 v p 2 s (some (tt, mapped_2mb t1 s1))
    unfolding translate
    IsMapped-2mb {t1} {s1} at = record {
      after = mapped_2mb t1 s1;
      owner = at.owner;
      returns = refl;
      well_formed = IsTables-leaf at.tables (IsLeafSet-2mb at);
      mapped = λ w e.
          walk-same_2mb (mapped_2mb t1 s1).mem p v w 3 p4table (omega arith) (same_2mb v w e) (
            at.path (mapped_2mb t1 s1).mem (λ u k d j o jl lt q.
              (IsLeafSet-2mb at).same u k d j o jl (inl (ground (arith, at.owned))))
            ∙ leaf-2mb t1 s1);
      others = λ w ne.
          walk-other at.tables (IsLeafSet-2mb at) 3 p4table 0 w at.tables.root (omega arith) (λ e.
            ne (
              sym (trace_2mb w)
              ∙ e
              ∙ sym (trace_here1 v at.prefix)
              ∙ at.traced 1 (omega arith)
              ∙ trace_2mb v))
          ∙ at.kept w;
      it_bound = omega (arith, at.it_bound);
      it_grows = at.it_grows;
      outside = λ a le.
          store64-ne s1.mem (t1 + 8 * index 1 v) (p + 131) a
            (inr (omega (arith, index-lt 1 v, at.tables.placed t1 1 at.prefix at.owned)))
          ∙ at.outside a le;
      bytes = λ b. store64-IsBytes (t1 + 8 * index 1 v) (p + 131) (at.bytes b);
      cr3_same = at.cr3_same;
      console_same = at.console_same;
    }

    -- Where the page of `v` is not part of a huge page and two tables fit below 2 ^ 52, mapping
    -- it to the frame at `p` returns; then every address of that page is translated into the
    -- frame, every address of another page as before, and the tables are well-formed again.
    pub map_2mb_page_lem :
        {own : Owner}
        → IsTables own s
        → is_small (translate s v) ≡ true
        → s.it + 2 * 4096 < 2 ^ 52
        → IsMapped 1 21 v p 2 s (map_2mb_page v p s)
    map_2mb_page_lem tables small room =
        let r = IsAt-root v s tables in
        let d3 = next_table-IsDown r small (omega arith) in
        let d2 = next_table-IsDown d3.at small (omega (arith, d3.at.it_bound)) in
        rw (map_2mb_page-runs d3.returns d2.returns) (IsMapped-2mb d2.at)
