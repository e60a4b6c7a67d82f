-- ===== src/Interrupts/Messages.antt =====
-- What the handlers of exceptions.c print before they halt.
use learning_osdev.Base.{ℕ, ◌<◌, ◌≡◌, arith, List, length, some, ap}
use learning_osdev.Str.{text}
use learning_osdev.Str.Text.{IsText}
use learning_osdev.Print.{Console}
use learning_osdev.Print.Text.{shown, puts_lem}
use learning_osdev.Interrupts.Handlers.{
  Handler, message, handle, halting_interrupt_handler, div_by_zero_interrupt, debug_interrupt,
  nmi_interrupt, breakpoint, overflow_interrupt, bound_range_exceeded_interrupt,
  invalid_opcode_interrupt, device_not_available_interrupt, double_fault_interrupt,
  coprocessor_segment_overrun_interrupt, invalid_tss_interrupt, segment_not_present_interrupt,
  stack_segment_fault_interrupt, general_protection_fault_interrupt, page_fault_handler,
  x87_fpu_interrupt, alignment_check_interrupt, machine_check_interrupt,
  simd_floating_point_interrupt, virtualization_interrupt, security_exception_interrupt,
}

abbrev IsShort : List ℕ → Type 0
IsShort xs = IsText xs × (length xs < 40)

same-IsShort : (xs ys : List ℕ) → IsShort xs → some xs ≡ some ys → IsShort ys
same-IsShort xs ys short e = let same : xs ≡ ys = ground arith in rw (← same) short

message-IsShort : (h : Handler) (xs : List ℕ) → message h ≡ some xs → IsShort xs
message-IsShort halting_interrupt_handler xs e = same-IsShort _ xs (ground arith, omega arith) e
message-IsShort div_by_zero_interrupt xs e = same-IsShort _ xs (ground arith, omega arith) e
message-IsShort debug_interrupt xs e = same-IsShort _ xs (ground arith, omega arith) e
message-IsShort nmi_interrupt xs e = same-IsShort _ xs (ground arith, omega arith) e
message-IsShort breakpoint xs e = same-IsShort _ xs (ground arith, omega arith) e
message-IsShort overflow_interrupt xs e = same-IsShort _ xs (ground arith, omega arith) e
message-IsShort bound_range_exceeded_interrupt xs e =
    same-IsShort _ xs (ground arith, omega arith) e
message-IsShort invalid_opcode_interrupt xs e = same-IsShort _ xs (ground arith, omega arith) e
message-IsShort device_not_available_interrupt xs e =
    same-IsShort _ xs (ground arith, omega arith) e
message-IsShort double_fault_interrupt xs e = same-IsShort _ xs (ground arith, omega arith) e
message-IsShort coprocessor_segment_overrun_interrupt xs e =
    same-IsShort _ xs (ground arith, omega arith) e
message-IsShort invalid_tss_interrupt xs e = same-IsShort _ xs (ground arith, omega arith) e
message-IsShort segment_not_present_interrupt xs e = same-IsShort _ xs (ground arith, omega arith) e
message-IsShort stack_segment_fault_interrupt xs e = same-IsShort _ xs (ground arith, omega arith) e
message-IsShort general_protection_fault_interrupt xs e = absurd (ground arith)
message-IsShort page_fault_handler xs e = absurd (ground arith)
message-IsShort x87_fpu_interrupt xs e = same-IsShort _ xs (ground arith, omega arith) e
message-IsShort alignment_check_interrupt xs e = same-IsShort _ xs (ground arith, omega arith) e
message-IsShort machine_check_interrupt xs e = same-IsShort _ xs (ground arith, omega arith) e
message-IsShort simd_floating_point_interrupt xs e = same-IsShort _ xs (ground arith, omega arith) e
message-IsShort virtualization_interrupt xs e = same-IsShort _ xs (ground arith, omega arith) e
message-IsShort security_exception_interrupt xs e = same-IsShort _ xs (ground arith, omega arith) e

-- A handler that only prints a text and halts has sent exactly the text to the screen and to the
-- serial line when it halts.
pub handle_lem :
    (h : Handler) (xs : List ℕ) (k : Console) → message h ≡ some xs → handle h k ≡ some (shown xs k)
unfolding handle
handle_lem h xs k e =
    let (is_text, short) = message-IsShort h xs e in
    rw e (puts_lem xs (text xs) 40 k is_text (λ j le. ap (text xs) (omega arith)) short)
