-- ===== src/Paging/Listing/Tests.antt =====
-- print_pagetable of a table that is empty but for one entry.
use learning_osdev.Base.{◌≡◌, arith, some, []}
use learning_osdev.Mem.{Memory, store64}
use learning_osdev.Print.{Console}
use learning_osdev.Print.Text.{shown}
use learning_osdev.Paging.Listing.{print_pagetable}
use learning_osdev.Paging.Listing.Lines.{table_text, print_pagetable_lem}

abbrev one_entry : Memory
one_entry = store64 (λ _. 0) 0x1008 0x2003

abbrev console : Console
console = record {
  screen = record {
    vga_buffer = λ n. record { character = b' '; colour = 7 };
    column_counter = 0;
    foreground = 7;
    background = 0;
  };
  serial = [];
}

print_pagetable_lem_example :
    print_pagetable one_entry 4 0x1000 console
    ≡ some (shown (table_text one_entry 4 0x1000) console)
print_pagetable_lem_example = print_pagetable_lem one_entry 4 0x1000 console (omega arith)
