-- ===== src/Interrupts/Faults.antt =====
-- general_protection_fault_interrupt and page_fault_handler of bootloader/cboot/src/exceptions.c up
-- to the instruction `hlt`, and what they print. The registers cr2 and cr3 are arguments.
use learning_osdev.Base.{ℕ, ◌≡◌, arith, List, [], ◌∷◌, ◌++◌, codes, some, u8, u64}
use Prim.Native.String.{String}
use learning_osdev.Str.Text.{IsText}
use learning_osdev.Mem.{Memory}
use learning_osdev.Print.{Console, putd, putx8, putx64}
use learning_osdev.Print.Text.{shown}
use learning_osdev.Print.Hex.{hex_text, putx-shown}
use learning_osdev.Print.Decimal.{dec_text}
use learning_osdev.Print.Printer.{
  Printer, ◌>>◌, char, say, Prints, Prints-then, Prints-char, Prints-say, Prints-putd,
  Prints-putx64,
}
use learning_osdev.Paging.{l1_index, l2_index, l3_index, l4_index}
use learning_osdev.Paging.Walk.{index, index-lt}
use learning_osdev.Paging.Mapped.{indices}
use learning_osdev.Paging.Listing.{print_pagetable}
use learning_osdev.Paging.Listing.Lines.{table_text, print_pagetable-Prints}

unfoldable pub general_protection_fault_interrupt : Memory → ℕ → ℕ → ℕ → Printer
general_protection_fault_interrupt m cr3 rip err = do
  say "GENERAL PROTECTION FAULT INTERRUPT\n"
  say "error code = "
  putx64 err
  char b'\n'
  say "rip = "
  putx64 rip
  char b'\n'
  print_pagetable m 4 cr3

unfoldable pub page_fault_handler : Memory → ℕ → ℕ → ℕ → Printer
page_fault_handler m cr3 cr2 errcode = do
  say "PAGE FAULT EXCEPTION\n"
  say "error code = "
  putx8 errcode
  char b'\n'
  say "CR2 = "
  putx64 cr2
  char b'\n'
  say "l4-index = "
  putd (l4_index cr2)
  char b'\n'
  say "l3-index = "
  putd (l3_index cr2)
  char b'\n'
  say "l2-index = "
  putd (l2_index cr2)
  char b'\n'
  say "l1-index = "
  putd (l1_index cr2)
  char b'\n'
  print_pagetable m 4 cr3

-- A line of a label and a value, and what follows.
abbrev pub line : List ℕ → List ℕ → List ℕ → List ℕ
line label value rest = label ++ (value ++ ((b'\n' ∷ []) ++ rest))

Prints-putx8 : (v : ℕ) → Prints (putx8 v) (hex_text 2 (u8 v))
unfolding putx8
Prints-putx8 v = record { run = λ k. putx-shown 1 (u8 v) k (omega arith) }

Prints-line :
    (label : String) {p q : Printer} {value rest : List ℕ}
    → IsText (codes label)
    → Prints p value
    → Prints q rest
    → Prints (do say label; p; char b'\n'; q) (line (codes label) value rest)
Prints-line label t hp hq =
    Prints-then (Prints-say label t) (Prints-then hp (Prints-then (Prints-char b'\n') hq))

Prints-index : (n v : ℕ) → Prints (putd (index n v)) (dec_text (index n v))
Prints-index n v = Prints-putd (index n v) (omega (arith, index-lt n v))

-- general_protection_fault_interrupt ends its printing, and prints the error code, the address of
-- the instruction and the page tables.
pub general_protection_fault_interrupt_lem :
    (m : Memory) (cr3 rip err : ℕ) (k : Console)
    → general_protection_fault_interrupt m cr3 rip err k
      ≡ some (
          shown
            (codes "GENERAL PROTECTION FAULT INTERRUPT\n"
              ++ line
                  (codes "error code = ")
                  (hex_text 16 (u64 err))
                  (line (codes "rip = ") (hex_text 16 (u64 rip)) (table_text m 4 cr3)))
            k)
unfolding general_protection_fault_interrupt
general_protection_fault_interrupt_lem m cr3 rip err k =
    (Prints-then (Prints-say "GENERAL PROTECTION FAULT INTERRUPT\n" (ground arith)) (
        Prints-line "error code = " (ground arith) (Prints-putx64 err) (
          Prints-line "rip = " (ground arith) (Prints-putx64 rip)
            (print_pagetable-Prints m 4 cr3 (omega arith))))).run
      k

-- page_fault_handler ends its printing, and prints the low byte of the error code, the address that
-- was accessed, the four indices by which the processor walks the page tables, and the tables.
pub page_fault_handler_lem :
    (m : Memory) (cr3 cr2 errcode : ℕ) (k : Console)
    → page_fault_handler m cr3 cr2 errcode k
      ≡ some (
          shown
            (codes "PAGE FAULT EXCEPTION\n"
              ++ line (codes "error code = ") (hex_text 2 (u8 errcode)) (
                  line (codes "CR2 = ") (hex_text 16 (u64 cr2)) (
                    line (codes "l4-index = ") (dec_text (index 3 cr2)) (
                      line (codes "l3-index = ") (dec_text (index 2 cr2)) (
                        line (codes "l2-index = ") (dec_text (index 1 cr2)) (
                          line
                            (codes "l1-index = ")
                            (dec_text (index 0 cr2))
                            (table_text m 4 cr3)))))))
            k)
unfolding page_fault_handler
page_fault_handler_lem m cr3 cr2 errcode k =
    rw ((indices cr2).0, (indices cr2).1, (indices cr2).2, (indices cr2).3)
      ((Prints-then (Prints-say "PAGE FAULT EXCEPTION\n" (ground arith)) (
          Prints-line "error code = " (ground arith) (Prints-putx8 errcode) (
            Prints-line "CR2 = " (ground arith) (Prints-putx64 cr2) (
              Prints-line "l4-index = " (ground arith) (Prints-index 3 cr2) (
                Prints-line "l3-index = " (ground arith) (Prints-index 2 cr2) (
                  Prints-line "l2-index = " (ground arith) (Prints-index 1 cr2) (
                    Prints-line "l1-index = " (ground arith) (Prints-index 0 cr2)
                      (print_pagetable-Prints m 4 cr3 (omega arith))))))))).run
        k)
