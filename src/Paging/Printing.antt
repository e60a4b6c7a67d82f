-- ===== src/Paging/Printing.antt =====
-- What a call that prints does to the state of paging.c: only the console changes.
use learning_osdev.Base.{ℕ, ◌≡◌, refl, List, some}
use learning_osdev.Print.{Console}
use learning_osdev.Print.Text.{shown}
use learning_osdev.Print.Printer.{Printer, Prints}
use learning_osdev.Paging.{Paging, prints}
use learning_osdev.Paging.Walk.{translate}
use learning_osdev.Paging.Invariant.{Owner, IsTables}

abbrev pub with_console : Console → Paging → Paging
with_console k s = record s { console = k }

pub prints-Prints :
    {p : Printer} {xs : List ℕ} (s : Paging)
    → Prints p xs
    → prints p s ≡ some (tt, with_console (shown xs s.console) s)
prints-Prints s h = rw (prints, h.run s.console) refl

pub IsTables-console :
    {own : Owner} {s : Paging} (k : Console) → IsTables own s → IsTables own (with_console k s)
IsTables-console k tables = record {
  root = tables.root;
  placed = tables.placed;
  linked = tables.linked;
  cleared = tables.cleared;
  it_aligned = tables.it_aligned;
}

pub translate-console :
    (s : Paging) (k : Console) (w : ℕ) → translate (with_console k s) w ≡ translate s w
unfolding translate
translate-console s k w = refl
