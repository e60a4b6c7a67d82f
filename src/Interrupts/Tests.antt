-- ===== src/Interrupts/Tests.antt =====
-- The exceptions at concrete addresses.
use learning_osdev.Base.{
  ℕ, ◌^◌, ◌≤◌, ◌<◌, ◌≡◌, refl, arith, List, [], codes, ◌++◌, u8, u64, true, some, get_elem?,
  if◌then◌else◌,
}
use learning_osdev.Print.{Console}
use learning_osdev.Print.Text.{shown}
use learning_osdev.Interrupts.{Idt, setup_interrupts}
use learning_osdev.Interrupts.Handlers.{Handler, double_fault_interrupt, takes_error_code}
use learning_osdev.Interrupts.Gates.{IsGate, vectors, setup_interrupts_lem, takes_error_code_lem}
use learning_osdev.Interrupts.Faults.{page_fault_handler, line, page_fault_handler_lem}
use learning_osdev.Print.Hex.{hex_text}
use learning_osdev.Print.Decimal.{dec_text}
use learning_osdev.Paging.Listing.Lines.{table_text}
use learning_osdev.Paging.Walk.{index}

abbrev no_gates : Idt
no_gates i = record {
  offset_low = 0;
  selector = 0;
  options = record {
    ist_index = 0;
    reserved1 = 0;
    gatetype = 0;
    reserved2 = 0;
    reserved3 = 0;
    privilege = 0;
    present = 0;
  };
  offset_mid = 0;
  offset_high = 0;
  zero2 = 0;
}

abbrev address : Handler → ℕ
address h = if takes_error_code h then 0xFFFF800012345678 else 0x8000

address-fits : (h : Handler) → address h < 2 ^ 64
address-fits h = ground arith

setup_interrupts_lem_example :
    ((v : ℕ) (h : Handler)
      → get_elem? vectors v ≡ some h
      → IsGate (address h) ((setup_interrupts address 0x9000 no_gates).0 v))
    × ((v : ℕ) → 32 ≤ v → (setup_interrupts address 0x9000 no_gates).0 v ≡ no_gates v)
    × ((setup_interrupts address 0x9000 no_gates).1 ≡ record { limit = 511; base = 0x9000 })
setup_interrupts_lem_example = setup_interrupts_lem address address-fits 0x9000 no_gates

takes_error_code_lem_example : takes_error_code double_fault_interrupt ≡ true
takes_error_code_lem_example = takes_error_code_lem 8 double_fault_interrupt refl

abbrev console : Console
console = record {
  screen = record {
    vga_buffer = λ n. record { character = b' '; colour = 7 };
    column_counter = 0;
    foreground = 7;
    background = 0;
  };
  serial = [];
}

abbrev virtualization : List ℕ
virtualization = codes "VIRTUALIZATION INTERRUPT"

page_fault_handler_lem_example :
    page_fault_handler (λ _. 0) 0x1000 0xFFFF900000001234 2 console
    ≡ some (
        shown
          (codes "PAGE FAULT EXCEPTION\n"
            ++ line (codes "error code = ") (hex_text 2 (u8 2)) (
                line (codes "CR2 = ") (hex_text 16 (u64 0xFFFF900000001234)) (
                  line (codes "l4-index = ") (dec_text (index 3 0xFFFF900000001234)) (
                    line (codes "l3-index = ") (dec_text (index 2 0xFFFF900000001234)) (
                      line (codes "l2-index = ") (dec_text (index 1 0xFFFF900000001234)) (
                        line
                          (codes "l1-index = ")
                          (dec_text (index 0 0xFFFF900000001234))
                          (table_text (λ _. 0) 4 0x1000)))))))
          console)
page_fault_handler_lem_example = page_fault_handler_lem (λ _. 0) 0x1000 0xFFFF900000001234 2 console
