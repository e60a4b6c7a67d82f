-- ===== src/Paging/Tests.antt =====
-- The theorems on paging.c at tables that map nothing yet.
use learning_osdev.Base.{[], ℕ, ◌≡◌, refl, arith, true, none, some, ◌==◌, if◌then◌else◌}
use learning_osdev.Print.{Console}
use learning_osdev.Paging.{Paging, p4table, map_4kb_page, map_2mb_page, present, entry}
use learning_osdev.Mem.{load64}
use learning_osdev.Paging.Walk.{translate, is_small, walk}
use learning_osdev.Paging.Invariant.{Owner, IsTables}
use learning_osdev.Paging.Mapped.{IsMapped}
use learning_osdev.Paging.Map4kb.{map_4kb_page_lem}
use learning_osdev.Paging.Map2mb.{map_2mb_page_lem}

abbrev console : Console
console = record {
  screen = record {
    vga_buffer = λ n. record { character = b' '; colour = 7 };
    column_counter = 0;
    foreground = 7;
    background = 0;
  };
  serial = [];
}

abbrev blank : Paging
blank = record { mem = λ _. 0; it = 0x20000; cr3 = 0x1000; console = console }

abbrev root_only : Owner
root_only t = if t == p4table then some (3, 0) else none

blank-entry : (t i : ℕ) → entry blank.mem t i ≡ 0
unfolding entry load64
blank-entry t i = refl

blank-IsTables : IsTables root_only blank
blank-IsTables = record {
  root = refl;
  placed = λ t n c o. ground arith;
  linked = λ t n c i o il p h. absurd (nothing t i p);
  cleared = λ t n c i o il p. blank-entry t i;
  it_aligned = refl;
}
  where
    nothing : (t i : ℕ) → present (entry blank.mem t i) ≡ true → ⊥
    nothing t i p = unfold present entry load64 in cc p

blank-is_small : (v : ℕ) → is_small (translate blank v) ≡ true
unfolding translate walk present entry load64
blank-is_small v = refl

map_4kb_page_example :
    IsMapped 0 12 0xFFFF900000001234 0x10203000 3 blank
      (map_4kb_page 0xFFFF900000001234 0x10203000 blank)
map_4kb_page_example =
    map_4kb_page_lem 0xFFFF900000001234 0x10203000 blank (refl) (omega arith) blank-IsTables
      (blank-is_small 0xFFFF900000001234) (omega arith)

map_2mb_page_example :
    IsMapped 1 21 0xFFFF900000001234 0x10200000 2 blank
      (map_2mb_page 0xFFFF900000001234 0x10200000 blank)
map_2mb_page_example =
    map_2mb_page_lem 0xFFFF900000001234 0x10200000 blank (refl) (omega arith) blank-IsTables
      (blank-is_small 0xFFFF900000001234) (omega arith)
