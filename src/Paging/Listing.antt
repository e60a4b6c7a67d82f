-- ===== src/Paging/Listing.antt =====
-- print_pagetable of bootloader/cboot/src/paging.c, over the calls of print.c.
pub mod Lines
mod Tests
use learning_osdev.Base.{ℕ, zero, suc, ◌+◌, ◌-◌, ◌==◌, ◌&&◌, ◌||◌, not, Bool, if◌then◌else◌}
use learning_osdev.Mem.{Memory}
use learning_osdev.Print.{putd, putx64}
use learning_osdev.Print.Printer.{Printer, ◌>>◌, quiet, char, say}
use learning_osdev.Paging.{present, huge_page, get_pte_address, entry, num_page_table_entries}

-- `for(usize i = 4; i > level; i--) putc(' ');`, with so many rounds left.
unfoldable pub indent : ℕ → Printer
indent zero = quiet
indent (suc left) = do char b' '; indent left

unfoldable pub print_line : ℕ → ℕ → ℕ → Printer
print_line level i raw = do
  indent (4 - level)
  say "PT"
  putd level
  char b'['
  putd i
  char b']'
  say " = "
  putx64 raw
  say "; paddr = "
  putx64 (get_pte_address raw)
  char b'\n'

-- Whether the table that the entry leads to is printed.
unfoldable pub descends : ℕ → ℕ → Bool
descends level raw = (level == 4) || ((level == 2 || level == 3) && not (huge_page raw))

-- The body of the loop; `sub` is the recursive call.
unfoldable pub print_entry : (ℕ → Printer) → ℕ → ℕ → ℕ → Printer
print_entry sub level i raw =
    if present raw
    then (do
      print_line level i raw
      if descends level raw then sub (get_pte_address raw) else quiet)
    else quiet

-- The loop at `i`, with so many entries left.
unfoldable pub print_entries : Memory → (ℕ → Printer) → ℕ → ℕ → ℕ → ℕ → Printer
print_entries m sub level table zero i = quiet
print_entries m sub level table (suc left) i = do
  print_entry sub level i (entry m table i)
  print_entries m sub level table left (i + 1)

-- No table of level 1 leads to another, so none of level 0 is printed.
unfoldable pub print_pagetable : Memory → ℕ → ℕ → Printer
print_pagetable m zero table = print_entries m (λ t. quiet) 0 table num_page_table_entries 0
print_pagetable m (suc level) table =
    print_entries m (print_pagetable m level) (suc level) table num_page_table_entries 0
