-- ===== src/Interrupts/Handlers.antt =====
-- bootloader/cboot/src/exceptions.c: the handlers of the exceptions.
use learning_osdev.Base.{ℕ, Bool, true, false, List, codes, Option, none, some, ◌>>=◌}
use learning_osdev.Str.{text}
use learning_osdev.Print.{Console, puts}

pub data Handler : Type 0 where
  halting_interrupt_handler div_by_zero_interrupt debug_interrupt : Handler
  nmi_interrupt breakpoint overflow_interrupt : Handler
  bound_range_exceeded_interrupt invalid_opcode_interrupt device_not_available_interrupt : Handler
  double_fault_interrupt coprocessor_segment_overrun_interrupt invalid_tss_interrupt : Handler
  segment_not_present_interrupt stack_segment_fault_interrupt general_protection_fault_interrupt :
      Handler
  page_fault_handler x87_fpu_interrupt alignment_check_interrupt : Handler
  machine_check_interrupt simd_floating_point_interrupt virtualization_interrupt : Handler
  security_exception_interrupt : Handler

-- The handlers that are declared with an error code.
abbrev pub takes_error_code : Handler → Bool
takes_error_code double_fault_interrupt = true
takes_error_code invalid_tss_interrupt = true
takes_error_code segment_not_present_interrupt = true
takes_error_code stack_segment_fault_interrupt = true
takes_error_code general_protection_fault_interrupt = true
takes_error_code page_fault_handler = true
takes_error_code alignment_check_interrupt = true
takes_error_code security_exception_interrupt = true
takes_error_code _ = false

-- What a handler prints that only prints a text and halts.
abbrev pub message : Handler → Option (List ℕ)
message halting_interrupt_handler = some (codes "UNHANDLED INTERRUPT")
message div_by_zero_interrupt = some (codes "DIV BY ZERO INTERRUPT")
message debug_interrupt = some (codes "DEBUG INTERRUPT")
message nmi_interrupt = some (codes "NON MASKABLE INTERRUPT")
message breakpoint = some (codes "BREAKPOINT INTERRUPT")
message overflow_interrupt = some (codes "OVERFLOW INTERRUPT")
message bound_range_exceeded_interrupt = some (codes "BOUND RANGE EXCEEDED INTERRUPT")
message invalid_opcode_interrupt = some (codes "INVALID OPCODE INTERRUPT")
message device_not_available_interrupt = some (codes "DEVICE NOT AVAILABLE INTERRUPT")
message double_fault_interrupt = some (codes "DOUBLE FAULT INTERRUPT")
message coprocessor_segment_overrun_interrupt = some (codes "COPROCESSOR SEGMENT OVERRUN INTERRUPT")
message invalid_tss_interrupt = some (codes "INVALID TSS INTERRUPT")
message segment_not_present_interrupt = some (codes "SEGMENT NOT PRESENT INTERRUPT")
message stack_segment_fault_interrupt = some (codes "STACK SEGMENT FAULT INTERRUPT")
message x87_fpu_interrupt = some (codes "X87 FLOATING POINT EXCEPTION INTERRUPT")
message alignment_check_interrupt = some (codes "ALIGNMENT CHECK INTERRUPT")
message machine_check_interrupt = some (codes "MACHINE CHECK INTERRUPT")
message simd_floating_point_interrupt = some (codes "SIMD FLOATING POINT EXCEPTION")
message virtualization_interrupt = some (codes "VIRTUALIZATION INTERRUPT")
message security_exception_interrupt = some (codes "SECURITY EXCEPTION")
message general_protection_fault_interrupt = none
message page_fault_handler = none

-- The console when such a handler executes `hlt`. No message has 40 characters.
unfoldable pub handle : Handler → Console → Option Console
handle h k = message h >>= λ xs. puts 40 (text xs) k
