-- ===== src/Interrupts.antt =====
-- bootloader/cboot/src/interrupts.c: the descriptors of the 32 exceptions.
pub mod Faults
pub mod Gates
pub mod Handlers
pub mod Messages
mod Tests
use learning_osdev.Base.{
  ℕ, zero, suc, ◌+◌, ◌-◌, ◌*◌, ◌/◌, ◌%◌, ◌^◌, ◌==◌, if◌then◌else◌, u16, u32, List, [], ◌∷◌,
}
use learning_osdev.Interrupts.Handlers.{
  Handler, halting_interrupt_handler, div_by_zero_interrupt, debug_interrupt, nmi_interrupt,
  breakpoint, overflow_interrupt, bound_range_exceeded_interrupt, invalid_opcode_interrupt,
  device_not_available_interrupt, double_fault_interrupt, coprocessor_segment_overrun_interrupt,
  invalid_tss_interrupt, segment_not_present_interrupt, stack_segment_fault_interrupt,
  general_protection_fault_interrupt, page_fault_handler, x87_fpu_interrupt,
  alignment_check_interrupt, machine_check_interrupt, simd_floating_point_interrupt,
  virtualization_interrupt, security_exception_interrupt,
}

-- The bit fields of IDTOptions, from the lowest bit on.
pub record IdtOptions : Type 0 where
  pub ist_index : ℕ
  pub reserved1 : ℕ
  pub gatetype : ℕ
  pub reserved2 : ℕ
  pub reserved3 : ℕ
  pub privilege : ℕ
  pub present : ℕ

-- The 16 bits that the fields lie in.
unfoldable pub raw_options : IdtOptions → ℕ
raw_options o =
    o.ist_index
    + 2 ^ 3 * o.reserved1
    + 2 ^ 8 * o.gatetype
    + 2 ^ 9 * o.reserved2
    + 2 ^ 12 * o.reserved3
    + 2 ^ 13 * o.privilege
    + 2 ^ 15 * o.present

pub record IdtDescriptor : Type 0 where
  pub offset_low : ℕ
  pub selector : ℕ
  pub options : IdtOptions
  pub offset_mid : ℕ
  pub offset_high : ℕ
  pub zero2 : ℕ

-- The array IDT by its index.
abbrev pub Idt : Type 0
Idt = ℕ → IdtDescriptor

-- `~0` in a field of three bits is 7.
unfoldable pub new_options : IdtOptions
new_options = record {
  ist_index = 0;
  reserved1 = 0;
  gatetype = 0;
  reserved2 = 7;
  reserved3 = 0;
  privilege = 0;
  present = 1;
}

unfoldable pub set_interrupt : ℕ → ℕ → Idt → Idt
set_interrupt num addr idt i =
    if i == num
    then record {
      offset_low = u16 addr;
      selector = 8;
      options = new_options;
      offset_mid = u16 (addr / 2 ^ 16);
      offset_high = u32 (addr / 2 ^ 32);
      zero2 = 0;
    }
    else idt i

-- `lidt` on a table of 32 descriptors of 16 bytes.
pub record Idtr : Type 0 where
  pub limit : ℕ
  pub base : ℕ

unfoldable pub lidt : ℕ → Idtr
lidt base = record { limit = 16 * 32 - 1; base = base }

-- The table and the register afterwards. `address` says where the handlers lie, and `base` where
-- the table lies.
unfoldable pub setup_interrupts : (Handler → ℕ) → ℕ → Idt → Idt × Idtr
setup_interrupts address base idt0 =
    let idt1 = set_interrupt 0 (address div_by_zero_interrupt) idt0 in
    let idt2 = set_interrupt 1 (address debug_interrupt) idt1 in
    let idt3 = set_interrupt 2 (address nmi_interrupt) idt2 in
    let idt4 = set_interrupt 3 (address breakpoint) idt3 in
    let idt5 = set_interrupt 4 (address overflow_interrupt) idt4 in
    let idt6 = set_interrupt 5 (address bound_range_exceeded_interrupt) idt5 in
    let idt7 = set_interrupt 6 (address invalid_opcode_interrupt) idt6 in
    let idt8 = set_interrupt 7 (address device_not_available_interrupt) idt7 in
    let idt9 = set_interrupt 8 (address double_fault_interrupt) idt8 in
    let idt10 = set_interrupt 9 (address coprocessor_segment_overrun_interrupt) idt9 in
    let idt11 = set_interrupt 10 (address invalid_tss_interrupt) idt10 in
    let idt12 = set_interrupt 11 (address segment_not_present_interrupt) idt11 in
    let idt13 = set_interrupt 12 (address stack_segment_fault_interrupt) idt12 in
    let idt14 = set_interrupt 13 (address general_protection_fault_interrupt) idt13 in
    let idt15 = set_interrupt 14 (address page_fault_handler) idt14 in
    let idt16 = set_interrupt 15 (address halting_interrupt_handler) idt15 in
    let idt17 = set_interrupt 16 (address x87_fpu_interrupt) idt16 in
    let idt18 = set_interrupt 17 (address alignment_check_interrupt) idt17 in
    let idt19 = set_interrupt 18 (address machine_check_interrupt) idt18 in
    let idt20 = set_interrupt 19 (address simd_floating_point_interrupt) idt19 in
    let idt21 = set_interrupt 20 (address virtualization_interrupt) idt20 in
    let idt22 = set_interrupt 21 (address halting_interrupt_handler) idt21 in
    let idt23 = set_interrupt 22 (address halting_interrupt_handler) idt22 in
    let idt24 = set_interrupt 23 (address halting_interrupt_handler) idt23 in
    let idt25 = set_interrupt 24 (address halting_interrupt_handler) idt24 in
    let idt26 = set_interrupt 25 (address halting_interrupt_handler) idt25 in
    let idt27 = set_interrupt 26 (address halting_interrupt_handler) idt26 in
    let idt28 = set_interrupt 27 (address halting_interrupt_handler) idt27 in
    let idt29 = set_interrupt 28 (address halting_interrupt_handler) idt28 in
    let idt30 = set_interrupt 29 (address halting_interrupt_handler) idt29 in
    let idt31 = set_interrupt 30 (address security_exception_interrupt) idt30 in
    let idt32 = set_interrupt 31 (address halting_interrupt_handler) idt31 in (idt32, lidt base)
