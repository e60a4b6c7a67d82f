-- ===== src/Paging/Map4kb.antt =====
-- map_4kb_page of bootloader/cboot/src/paging.c against the translation of
-- addresses by the processor.
use learning_osdev.Base.{
  ℕ, ◌+◌, ◌*◌, ◌%◌, ◌^◌, ◌<◌, ◌≡◌, refl, arith, true, some, inl, inr, sym, ◌∙◌,
}
use learning_osdev.Mem.{store64}
use learning_osdev.Mem.Words.{store64-ne, store64-IsBytes}
use learning_osdev.Paging.{Paging, p4table, next_table, map_4kb_page, ◌>>=◌}
use learning_osdev.Paging.Entries.{
  link-present, link-frame, set_pte_address-zero, set_present-new, set_writable-new,
  store64-store64, entry-store64, entry-store64_ne,
}
use learning_osdev.Paging.Walk.{index, walk, index-lt, translate, is_small, page, leaf}
use learning_osdev.Paging.Invariant.{Owner, IsTables}
use learning_osdev.Paging.Leaf.{trace_4kb, trace_here0, IsLeafSet, walk-other, IsTables-leaf}
use learning_osdev.Paging.Descend.{IsAt, IsAt-root, next_table-IsDown}
use learning_osdev.Paging.SamePage.{same_4kb, walk-same_4kb}
use learning_osdev.Paging.Mapped.{indices, IsMapped}

module _ (v p : ℕ) (s : Paging) where
  -- The entry of the last level is set.
  abbrev mapped_4kb : ℕ → Paging → Paging
  mapped_4kb t a = record a { mem = store64 a.mem (t + 8 * index 0 v) (p + 3) }

  module _ (aligned : p % 2 ^ 12 ≡ 0) (low : p < 2 ^ 52) where
    map_4kb_page-runs :
        {t3 t2 t1 : ℕ} {s3 s2 s1 : Paging}
        → next_table p4table (index 3 v) s ≡ some (t3, s3)
        → next_table t3 (index 2 v) s3 ≡ some (t2, s2)
        → next_table t2 (index 1 v) s2 ≡ some (t1, s1)
        → map_4kb_page v p s ≡ some (tt, mapped_4kb t1 s1)
    unfolding map_4kb_page
    map_4kb_page-runs {t1} {s1} e3 e2 e1 =
        rw (◌>>=◌, (indices v).0, e3)
          (rw (◌>>=◌, (indices v).1, e2)
            (rw (◌>>=◌, (indices v).2, e1)
              (rw (indices v).3 (
                rw (
                  entry-store64 s1.mem t1 (index 0 v) 0 (omega arith),
                  set_pte_address-zero p aligned low,
                  store64-store64 s1.mem (t1 + 8 * index 0 v) 0 p,
                  entry-store64 s1.mem t1 (index 0 v) p (omega arith),
                  set_present-new p aligned low,
                  store64-store64 s1.mem (t1 + 8 * index 0 v) p (p + 1),
                  entry-store64 s1.mem t1 (index 0 v) (p + 1) (omega arith),
                  set_writable-new p aligned low,
                  store64-store64 s1.mem (t1 + 8 * index 0 v) (p + 1) (p + 3),
                )))))

    IsLeafSet-4kb :
        {t1 : ℕ} {s1 : Paging} (at : IsAt v s 0 t1 s1)
        → IsLeafSet at.owner t1 0 at.prefix (index 0 v) s1.mem (mapped_4kb t1 s1).mem
    IsLeafSet-4kb {t1} {s1} at =
        let now = entry-store64 s1.mem t1 (index 0 v) (p + 3) (omega arith) in
        record {
          owned = at.owned;
          is_present = rw now (link-present p aligned low);
          is_leaf = inl refl;
          same = λ u n d j o jl ne.
              entry-store64_ne s1.mem t1 (index 0 v) (p + 3) u j
                (at.tables.placed t1 0 at.prefix at.owned).0 (at.tables.placed u n d o).0
                (index-lt 0 v) jl ne;
        }

    leaf-4kb : (t1 : ℕ) (s1 : Paging) → walk (mapped_4kb t1 s1).mem 0 t1 v ≡ page 0 (p + v % 2 ^ 12)
    unfolding walk leaf
    leaf-4kb t1 s1 = rw (
      entry-store64 s1.mem t1 (index 0 v) (p + 3) (omega arith),
      link-present p aligned low,
      link-frame p aligned low,
    )

    IsMapped-4kb :
        {t1 : ℕ} {s1 : Paging} (at : IsAt v s 0 t1 s1)
        → IsMapped 0 12 v p 3 s (some (tt, mapped_4kb t1 s1))
    unfolding translate
    IsMapped-4kb {t1} {s1} at = record {
      after = mapped_4kb t1 s1;
      owner = at.owner;
      returns = refl;
      well_formed = IsTables-leaf at.tables (IsLeafSet-4kb at);
      mapped = λ w e.
          walk-same_4kb (mapped_4kb t1 s1).mem p v w 3 p4table (omega arith) (same_4kb v w e) (
            at.path (mapped_4kb t1 s1).mem (λ u k d j o jl lt q.
              (IsLeafSet-4kb at).same u k d j o jl (inl (ground (arith, at.owned))))
            ∙ leaf-4kb t1 s1);
      others = λ w ne.
          walk-other at.tables (IsLeafSet-4kb at) 3 p4table 0 w at.tables.root (omega arith) (λ e.
            ne (
              sym (trace_4kb w)
              ∙ e
              ∙ sym (trace_here0 v at.prefix)
              ∙ at.traced 0 (omega arith)
              ∙ trace_4kb v))
          ∙ at.kept w;
      it_bound = omega (arith, at.it_bound);
      it_grows = at.it_grows;
      outside = λ a le.
          store64-ne s1.mem (t1 + 8 * index 0 v) (p + 3) a
            (inr (omega (arith, index-lt 0 v, at.tables.placed t1 0 at.prefix at.owned)))
          ∙ at.outside a le;
      bytes = λ b. store64-IsBytes (t1 + 8 * index 0 v) (p + 3) (at.bytes b);
      cr3_same = at.cr3_same;
      console_same = at.console_same;
    }

    -- Where the page of `v` is not part of a huge page and three tables fit below 2 ^ 52, mapping
    -- it to the frame at `p` returns; then every address of that page is translated into the
    -- frame, every address of another page as before, and the tables are well-formed again.
    pub map_4kb_page_lem :
        {own : Owner}
        → IsTables own s
        → is_small (translate s v) ≡ true
        → s.it + 3 * 4096 < 2 ^ 52
        → IsMapped 0 12 v p 3 s (map_4kb_page v p s)
    map_4kb_page_lem tables small room =
        let r = IsAt-root v s tables in
        let d3 = next_table-IsDown r small (omega arith) in
        let d2 = next_table-IsDown d3.at small (omega (arith, d3.at.it_bound)) in
        let d1 = next_table-IsDown d2.at small (omega (arith, d2.at.it_bound)) in
        rw (map_4kb_page-runs d3.returns d2.returns d1.returns) (IsMapped-4kb d1.at)
