-- ===== src/Interrupts/Gates.antt =====
-- What setup_interrupts leaves in the table, as the processor reads it.
use learning_osdev.Base.{
  ℕ, zero, suc, ◌+◌, ◌*◌, ◌^◌, ◌≤◌, ◌<◌, ◌≡◌, ◌≢◌, refl, arith, Bool, true, false, List, [], ◌∷◌,
  ◌==◌, get_elem?, some, ◌∙◌, length, ◌⊎◌, not, subst, sym, inl, inr, ◌||◌, leb, ◌&&◌,
}
use learning_osdev.Interrupts.Handlers.{
  Handler, takes_error_code, alignment_check_interrupt, bound_range_exceeded_interrupt, breakpoint,
  coprocessor_segment_overrun_interrupt, debug_interrupt, device_not_available_interrupt,
  div_by_zero_interrupt, double_fault_interrupt, general_protection_fault_interrupt,
  halting_interrupt_handler, invalid_opcode_interrupt, invalid_tss_interrupt,
  machine_check_interrupt, nmi_interrupt, overflow_interrupt, page_fault_handler,
  security_exception_interrupt, segment_not_present_interrupt, simd_floating_point_interrupt,
  stack_segment_fault_interrupt, virtualization_interrupt, x87_fpu_interrupt,
}
use learning_osdev.Interrupts.{
  Idt, IdtDescriptor, raw_options, new_options, set_interrupt, lidt, setup_interrupts,
}

-- The address of the handler that the processor puts together.
abbrev pub gate_address : IdtDescriptor → ℕ
gate_address d = d.offset_low + 2 ^ 16 * d.offset_mid + 2 ^ 32 * d.offset_high

-- A present interrupt gate of 64 bits for privilege 0, without a stack of its own, in the code
-- segment 8, to the address.
pub record IsGate (addr : ℕ) (d : IdtDescriptor) : Type 0 where
  pub to : gate_address d ≡ addr
  pub segment : d.selector ≡ 8
  pub flags : raw_options d.options ≡ 0x8E00
  pub rest : d.zero2 ≡ 0

-- The handlers by the vectors of the exceptions.
abbrev pub vectors : List Handler
vectors =
    div_by_zero_interrupt ∷ debug_interrupt ∷ nmi_interrupt ∷ breakpoint ∷ overflow_interrupt
    ∷ bound_range_exceeded_interrupt ∷ invalid_opcode_interrupt ∷ device_not_available_interrupt
    ∷ double_fault_interrupt ∷ coprocessor_segment_overrun_interrupt ∷ invalid_tss_interrupt
    ∷ segment_not_present_interrupt ∷ stack_segment_fault_interrupt
    ∷ general_protection_fault_interrupt ∷ page_fault_handler ∷ halting_interrupt_handler
    ∷ x87_fpu_interrupt ∷ alignment_check_interrupt ∷ machine_check_interrupt
    ∷ simd_floating_point_interrupt ∷ virtualization_interrupt ∷ halting_interrupt_handler
    ∷ halting_interrupt_handler ∷ halting_interrupt_handler ∷ halting_interrupt_handler
    ∷ halting_interrupt_handler ∷ halting_interrupt_handler ∷ halting_interrupt_handler
    ∷ halting_interrupt_handler ∷ halting_interrupt_handler ∷ security_exception_interrupt
    ∷ halting_interrupt_handler ∷ []

-- The entry `num` becomes a gate to the address, and no other entry changes.
pub set_interrupt_lem :
    (num addr : ℕ) (idt : Idt)
    → addr < 2 ^ 64
    → IsGate addr (set_interrupt num addr idt num)
      × ((i : ℕ) → i ≢ num → set_interrupt num addr idt i ≡ idt i)
unfolding set_interrupt new_options raw_options
set_interrupt_lem num addr idt fits =
    let here : (num == num) ≡ true = ground arith in
    (
      rw here (record { to = omega arith; segment = refl; flags = refl; rest = refl }),
      λ i ne. let other : (i == num) ≡ false = ground arith in rw other refl,
    )

-- The handlers of a list, from a vector on.
abbrev set_list : (Handler → ℕ) → ℕ → List Handler → Idt → Idt
set_list address i [] idt = idt
set_list address i (h ∷ hs) idt = set_list address (i + 1) hs (set_interrupt i (address h) idt)

module _ (address : Handler → ℕ) (fits : (h : Handler) → address h < 2 ^ 64) where
  set_list-outside :
      (hs : List Handler) (i j : ℕ) (idt : Idt)
      → (j < i) ⊎ (i + length hs ≤ j)
      → set_list address i hs idt j ≡ idt j
  set_list-outside [] i j idt out = refl
  set_list-outside (h ∷ hs) i j idt out =
      set_list-outside hs (i + 1) j (set_interrupt i (address h) idt) (omega arith)
      ∙ (set_interrupt_lem i (address h) idt (fits h)).1 j (λ e. omega arith)

  set_list-get :
      (hs : List Handler) (i v : ℕ) (h : Handler) (idt : Idt)
      → get_elem? hs v ≡ some h
      → IsGate (address h) (set_list address i hs idt (i + v))
  set_list-get [] i v h idt e = absurd (ground arith)
  set_list-get (x ∷ hs) i zero h idt e =
      let same : x ≡ h = ground arith in
      let at : i + 0 ≡ i = omega arith in
      rw
        (
          at,
          set_list-outside hs (i + 1) i (set_interrupt i (address x) idt) (inl (omega arith)),
          same,
        )
        ((set_interrupt_lem i (address h) idt (fits h)).0)
  set_list-get (x ∷ hs) i (suc v) h idt e =
      let at : i + suc v ≡ i + 1 + v = omega arith in
      rw at (set_list-get hs (i + 1) v h (set_interrupt i (address x) idt) e)

  -- Each of the 32 vectors gets a gate to its handler, entries behind them do not change, and the
  -- register gets the table and its limit, 511.
  pub setup_interrupts_lem :
      (base : ℕ) (idt : Idt)
      → ((v : ℕ) (h : Handler)
          → get_elem? vectors v ≡ some h
          → IsGate (address h) ((setup_interrupts address base idt).0 v))
        × ((v : ℕ) → 32 ≤ v → (setup_interrupts address base idt).0 v ≡ idt v)
        × ((setup_interrupts address base idt).1 ≡ record { limit = 511; base = base })
  unfolding setup_interrupts lidt
  setup_interrupts_lem base idt = (
    λ v h e.
        subst (λ (i : ℕ). IsGate (address h) (set_list address 0 vectors idt i)) (omega arith)
          (set_list-get vectors 0 v h idt e),
    λ v le. set_list-outside vectors 0 v idt (inr (omega arith)),
    refl,
  )

-- The vectors at which the processor pushes an error code.
abbrev pub pushes_error_code : ℕ → Bool
pushes_error_code v =
    (v == 8) || (leb 10 v && leb v 14) || (v == 17) || (v == 21) || (v == 29) || (v == 30)

abbrev same_bool : Bool → Bool → Bool
same_bool true b = b
same_bool false b = not b

same_bool-eq : (a b : Bool) → same_bool a b ≡ true → a ≡ b
same_bool-eq true b e = sym e
same_bool-eq false true e = absurd (ground arith)
same_bool-eq false false e = refl

-- A test of the handlers of a list and their vectors, from a vector on.
abbrev all_from : (Handler → ℕ → Bool) → List Handler → ℕ → Bool
all_from p [] i = true
all_from p (h ∷ hs) i = p h i && all_from p hs (i + 1)

all_from-get :
    (p : Handler → ℕ → Bool) (hs : List Handler) (i v : ℕ) (h : Handler)
    → all_from p hs i ≡ true
    → get_elem? hs v ≡ some h
    → p h (i + v) ≡ true
all_from-get p [] i v h all e = absurd (ground arith)
all_from-get p (x ∷ hs) i zero h all e =
    let same : x ≡ h = ground arith in
    let at : i + 0 ≡ i = omega arith in rw (at, ← same) (ground arith)
all_from-get p (x ∷ hs) i (suc v) h all e =
    let at : i + suc v ≡ i + 1 + v = omega arith in
    rw at (all_from-get p hs (i + 1) v h (ground arith) e)

-- The handler of a vector is declared with an error code exactly when the processor pushes one, but
-- for the vectors 21 and 29, where it pushes one that the handler does not take.
pub takes_error_code_lem :
    (v : ℕ) (h : Handler)
    → get_elem? vectors v ≡ some h
    → takes_error_code h ≡ (pushes_error_code v && not (v == 21) && not (v == 29))
takes_error_code_lem v h e =
    let zero_plus : 0 + v ≡ v = omega arith in
    subst (λ (i : ℕ). takes_error_code h ≡ (pushes_error_code i && not (i == 21) && not (i == 29)))
      zero_plus
      (same_bool-eq (takes_error_code h)
        (pushes_error_code (0 + v) && not (0 + v == 21) && not (0 + v == 29))
        (all_from-get
          (λ x i.
            same_bool (takes_error_code x) (pushes_error_code i && not (i == 21) && not (i == 29)))
          vectors 0 v h refl e))
