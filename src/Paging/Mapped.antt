-- ===== src/Paging/Mapped.antt =====
-- What map_4kb_page and map_2mb_page of bootloader/cboot/src/paging.c are to achieve.
use learning_osdev.Base.{ℕ, ◌+◌, ◌-◌, ◌*◌, ◌/◌, ◌%◌, ◌^◌, ◌≤◌, ◌≡◌, ◌≢◌, refl, Option, some}
use learning_osdev.Mem.Words.{IsBytes}
use learning_osdev.Paging.{Paging, l1_index, l2_index, l3_index, l4_index}
use learning_osdev.Paging.Walk.{index, translate, page}
use learning_osdev.Paging.Invariant.{Owner, IsTables}

pub indices :
    (v : ℕ)
    → (l4_index v ≡ index 3 v)
      × (l3_index v ≡ index 2 v)
      × (l2_index v ≡ index 1 v)
      × (l1_index v ≡ index 0 v)
unfolding l1_index l2_index l3_index l4_index index
indices v = (refl, refl, refl, refl)

-- `result` is a normal end with tables that are well-formed, in which every address of the page of
-- `v`, of `2 ^ bits` bytes, is translated into the frame at `target` and every address of another
-- page as before; at most `tables` tables are new.
pub record IsMapped (level bits v target tables : ℕ) (s : Paging)
    (result : Option (Unit {0} × Paging)) : Type 0 where
  pub after : Paging
  pub owner : Owner
  pub returns : result ≡ some (tt, after)
  pub well_formed : IsTables owner after
  pub mapped :
      (w : ℕ)
      → w / 2 ^ bits % 2 ^ (48 - bits) ≡ v / 2 ^ bits % 2 ^ (48 - bits)
      → translate after w ≡ page level (target + w % 2 ^ bits)
  pub others :
      (w : ℕ)
      → w / 2 ^ bits % 2 ^ (48 - bits) ≢ v / 2 ^ bits % 2 ^ (48 - bits)
      → translate after w ≡ translate s w
  pub it_grows : s.it ≤ after.it
  pub outside : (a : ℕ) → after.it ≤ a → after.mem a ≡ s.mem a
  pub bytes : IsBytes s.mem → IsBytes after.mem
  pub it_bound : after.it ≤ s.it + tables * 4096
  pub cr3_same : after.cr3 ≡ s.cr3
  pub console_same : after.console ≡ s.console
