-- ===== src/Paging/Physical/Steps.antt =====
-- The calls of setup_physical_map before and after its loop.
use learning_osdev.Base.{
  ◌==◌, if◌then◌else◌, List, codes, ℕ, ◌+◌, ◌^◌, ◌<◌, ◌≡◌, refl, arith, some, u64,
}
use learning_osdev.Mem.{Memory, memset}
use learning_osdev.Paging.{Paging, new_page_table, clear, ◌>>=◌}
use learning_osdev.Print.Printer.{Prints, Prints-if, Prints-say}
use learning_osdev.Paging.Physical.{print_test}

abbrev pub test_text : ℕ → List ℕ
test_text neq =
    if neq == 0
    then codes "Physical Page Table mapping is correct\n"
    else codes "Page Table mapping is suspiciously incorrect!\n"

pub print_test-Prints : (neq : ℕ) → Prints (print_test neq) (test_text neq)
unfolding print_test
print_test-Prints neq =
    Prints-if (neq == 0) (Prints-say "Physical Page Table mapping is correct\n" (ground arith))
      (Prints-say "Page Table mapping is suspiciously incorrect!\n" (ground arith))

pub clear_lem :
    (dst size : ℕ) (s : Paging) (m : Memory)
    → memset dst 0 size s.mem ≡ some m
    → clear dst size s ≡ some (tt, record s { mem = m })
unfolding clear
clear_lem dst size s m e = rw (clear, e) refl

pub new_page_table_lem :
    (s : Paging) (m : Memory)
    → s.it + 4096 < 2 ^ 64
    → memset s.it 0 4096 s.mem ≡ some m
    → new_page_table s ≡ some (s.it, record s { mem = m; it = s.it + 4096 })
unfolding new_page_table
new_page_table_lem s m room e =
    let next : u64 (s.it + 4096) ≡ s.it + 4096 = omega arith in
    rw (clear_lem s.it 4096 s m e, ◌>>=◌, next) refl
