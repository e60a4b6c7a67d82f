-- ===== src/Paging/Invariant.antt =====
-- What the page tables of paging.c satisfy between its calls.
use learning_osdev.Base.{ℕ, suc, ◌+◌, ◌*◌, ◌%◌, ◌≤◌, ◌<◌, ◌≡◌, true, false, Option, some}
use learning_osdev.Paging.{present, huge_page, get_pte_address, entry, Paging, p4table}
use learning_osdev.Paging.Entries.{frame}

-- Which page holds a table: `own t ≡ some (n, c)` says that `t` is a table of level `n + 1`, and
-- that `c` is the part of the virtual address that leads to it. So no table is entered from two
-- entries.
abbrev pub Owner : Type 0
Owner = ℕ → Option (ℕ × ℕ)

pub record IsTables (own : Owner) (s : Paging) : Type 0 where
  pub root : own p4table ≡ some (3, 0)
  pub placed : (t n c : ℕ) → own t ≡ some (n, c) → (t % 4096 ≡ 0) × (t + 4096 ≤ s.it)
  -- A present entry above the last level leads to a table one level below, at an address that the
  -- code and the processor read alike, or is a huge page.
  pub linked :
      (t n c i : ℕ)
      → own t ≡ some (suc n, c)
      → i < 512
      → present (entry s.mem t i) ≡ true
      → huge_page (entry s.mem t i) ≡ false
      → (own (frame (entry s.mem t i)) ≡ some (n, c * 512 + i))
        × (get_pte_address (entry s.mem t i) ≡ frame (entry s.mem t i))
  pub cleared :
      (t n c i : ℕ)
      → own t ≡ some (suc n, c)
      → i < 512
      → present (entry s.mem t i) ≡ false
      → entry s.mem t i ≡ 0
  pub it_aligned : s.it % 4096 ≡ 0
