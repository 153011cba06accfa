-- ===== src/Idt.antt =====
-- student-distrib/interrupts-exceptions/idt.c: the interrupt descriptor table, and its test `idt_test` in
-- student-distrib/tests.c.
use linux_kernel_os.Prelude.{
  ltb, ◌==◌, if◌then◌else◌, ℕ, zero, suc, ◌+◌, ◌/◌, ◌%◌, ◌^◌, not, ◌&&◌, List, [], ◌∷◌,
}
pub mod Gates
pub mod Missing

-- SYS_CALL, NUM_VEC and KERNEL_CS
abbrev pub sys_call : ℕ
sys_call = 0x80

abbrev pub num_vec : ℕ
num_vec = 256

abbrev pub kernel_cs : ℕ
kernel_cs = 0x10

-- `idt_desc_t`
pub record Gate : Type 0 where
  pub offset_15_00 : ℕ
  pub seg_selector : ℕ
  pub reserved4 : ℕ
  pub reserved3 : ℕ
  pub reserved2 : ℕ
  pub reserved1 : ℕ
  pub size : ℕ
  pub reserved0 : ℕ
  pub dpl : ℕ
  pub present : ℕ
  pub offset_31_16 : ℕ

-- The routines that the table names.
pub data Handler : Type 0 where
  divide_error reserved nmint breakpoint overflow bound_range_exceeded : Handler
  invalid_opcode device_na double_fault segment_overrun invalid_tss : Handler
  segment_not_present segment_fault general_protection page_fault math_fault : Handler
  alignment_check machine_check floating_point_exception : Handler
  timer_handler keyboard_handler slave_pic rtc_handler syscall_handler : Handler

-- The body of the loop, for the vector `i`.
unfoldable pub init_gate : Gate → ℕ → Gate
init_gate g i = record g {
  seg_selector = kernel_cs;
  reserved4 = 0;
  reserved3 = if i == sys_call then 1 else if ltb i 32 then 1 else 0;
  reserved2 = 1;
  reserved1 = 1;
  size = 1;
  reserved0 = 0;
  dpl = if i == sys_call then 3 else 0;
  present = if ltb 0x22 i && not (i == sys_call) && not (i == 0x28) then 0 else 1;
}

abbrev pub put_gate : (ℕ → Gate) → ℕ → Gate → ℕ → Gate
put_gate idt i g j = if i == j then g else idt j

-- The loop over the vectors below `n`.
unfoldable pub init_gates : ℕ → (ℕ → Gate) → ℕ → Gate
unfolding init_gate
init_gates zero idt = idt
init_gates (suc n) idt = let done = init_gates n idt in put_gate done n (init_gate (done n) n)

-- SET_IDT_ENTRY
unfoldable pub set_idt_entry : Gate → ℕ → Gate
set_idt_entry g handler = record g {
  offset_31_16 = handler / 2 ^ 16 % 2 ^ 16;
  offset_15_00 = handler % 2 ^ 16;
}

-- The vectors and the routines of the calls of SET_IDT_ENTRY.
abbrev pub entries : List (ℕ × Handler)
entries =
    (0x00, divide_error)
    ∷ (0x01, reserved)
    ∷ (0x02, nmint)
    ∷ (0x03, breakpoint)
    ∷ (0x04, overflow)
    ∷ (0x05, bound_range_exceeded)
    ∷ (0x06, invalid_opcode)
    ∷ (0x07, device_na)
    ∷ (0x08, double_fault)
    ∷ (0x09, segment_overrun)
    ∷ (0x0a, invalid_tss)
    ∷ (0x0b, segment_not_present)
    ∷ (0x0c, segment_fault)
    ∷ (0x0d, general_protection)
    ∷ (0x0e, page_fault)
    ∷ (0x10, math_fault)
    ∷ (0x11, alignment_check)
    ∷ (0x12, machine_check)
    ∷ (0x13, floating_point_exception)
    ∷ (0x20, timer_handler)
    ∷ (0x21, keyboard_handler)
    ∷ (0x22, slave_pic)
    ∷ (0x28, rtc_handler)
    ∷ (sys_call, syscall_handler)
    ∷ []

-- The calls, in order. `address` is where the linker has put a routine.
unfoldable pub set_entries : (Handler → ℕ) → List (ℕ × Handler) → (ℕ → Gate) → ℕ → Gate
unfolding set_idt_entry
set_entries address [] idt = idt
set_entries address ((i, h) ∷ rest) idt =
    set_entries address rest (put_gate idt i (set_idt_entry (idt i) (address h)))

-- `init_idt`, less `lidt`.
unfoldable pub init_idt : (Handler → ℕ) → (ℕ → Gate) → ℕ → Gate
unfolding init_gates set_entries
init_idt address idt = set_entries address entries (init_gates num_vec idt)

-- The loop of `idt_test`, from the vector `i` on, with the rounds left: the vectors at which it calls
-- `assertion_failure`. (The call raises exception 15, which does not come back where it is not handled.)
unfoldable pub idt_test_loop : ℕ → (ℕ → Gate) → ℕ → List ℕ
idt_test_loop zero idt i = []
idt_test_loop (suc r) idt i =
    let rest = idt_test_loop r idt (i + 1) in
    if ((idt i).offset_15_00 == 0) && ((idt i).offset_31_16 == 0) then i ∷ rest else rest

unfoldable pub idt_test : (ℕ → Gate) → List ℕ
unfolding idt_test_loop
idt_test idt = idt_test_loop 20 idt 0
