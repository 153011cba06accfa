-- ===== src/Tests/Startup.antt =====
-- The start of the kernel, at concrete values.
use linux_kernel_os.Prelude.{◌%◌, ◌≡◌, refl, false, [], ◌∷◌, arith}
use linux_kernel_os.Memory.{Memory}
use linux_kernel_os.Memory.Write.{write_bytes}
use linux_kernel_os.Kernel.{Kernel}
use linux_kernel_os.Segments.{SegDesc}
use linux_kernel_os.Idt.Missing.{idt_test-init_idt}
use linux_kernel_os.Idt.{Gate, entries, init_idt, idt_test}
use linux_kernel_os.Idt.Gates.{offset_of, routine, address_or, init_idt-gates}
use linux_kernel_os.Pic.Masks.{is_masked}
use linux_kernel_os.Boot.{Machine, init_parts}
use linux_kernel_os.Boot.Lines.{is_masked-init_parts}
use linux_kernel_os.Memory.Fill.{memset, memset-write}
use linux_kernel_os.Memory.Move.{memmove, moved, memmove-moved}
use linux_kernel_os.Tests.Processes.{kernel}

abbrev blank_desc : SegDesc
blank_desc = record {
  seg_lim_15_00 = 0;
  base_15_00 = 0;
  base_23_16 = 0;
  kind = 0;
  sys = 0;
  dpl = 0;
  present = 0;
  seg_lim_19_16 = 0;
  avail = 0;
  reserved = 0;
  opsize = 0;
  granularity = 0;
  base_31_24 = 0;
}

abbrev blank_gate : Gate
blank_gate = record {
  offset_15_00 = 0;
  seg_selector = 0;
  reserved4 = 0;
  reserved3 = 0;
  reserved2 = 0;
  reserved1 = 0;
  size = 0;
  reserved0 = 0;
  dpl = 0;
  present = 0;
  offset_31_16 = 0;
}

init_idt-gates_example :
    let g = init_idt (λ h. 0x400123) (λ i. blank_gate) 0x80 in
    (g.present ≡ 1)
    × (g.dpl ≡ 3)
    × (g.reserved3 ≡ 1)
    × (g.seg_selector ≡ 0x10)
    × (offset_of g ≡ address_or (λ h. 0x400123) (routine entries 0x80) 0)
init_idt-gates_example =
    init_idt-gates (λ h. 0x400123) (λ i. blank_gate) 0x80 (λ h. omega arith) (omega arith)

idt_test-init_idt_example : idt_test (init_idt (λ h. 0x400123) (λ i. blank_gate)) ≡ 15 ∷ []
idt_test-init_idt_example =
    idt_test-init_idt (λ h. 0x400123) (λ i. blank_gate) (λ h. omega arith)
      (λ h e. absurd (omega arith)) (λ v. refl)

-- The kernel with the masks that i8259.c starts with.
abbrev fresh : Kernel
fresh = record kernel { pic = record { master_mask = 0xff; slave_mask = 0xff; sent = [] } }

abbrev machine : Machine
machine = record {
  messages = λ s. 0;
  conv = 0x7ffd30;
  local_desc = blank_desc;
  ldt = 0x412000;
  ldt_size = 16;
  tss = 0x412100;
  tss_size = 104;
  stale_module = 0;
  stale_rate = 0;
  answer_a = 0;
  answer_b = 0;
  garbage = λ i. 0;
}

is_masked-init_parts_example : is_masked (init_parts machine 0x10000 fresh).pic 8 ≡ false
is_masked-init_parts_example = is_masked-init_parts machine 0x10000 fresh 8 refl refl (omega arith)

abbrev ram : Memory
ram a = a % 256

memset-write_example : memset ram 101 0x1ff 2 ≡ write_bytes ram 101 (0xff ∷ 0xff ∷ [])
memset-write_example = memset-write ram 101 0x1ff 2

memmove-moved_example : memmove ram 102 100 5 104 ≡ moved ram 102 100 5 104
memmove-moved_example = memmove-moved ram 102 100 5 104
