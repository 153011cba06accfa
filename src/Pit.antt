-- ===== src/Pit.antt =====
-- The timer of student-distrib/scheduling/scheduling.c. (`pit_scheduling`, which switches terminals, is
-- in Switching.)
use linux_kernel_os.Prelude.{ℕ, ◌/◌, ◌%◌, ◌^◌, List, ◌∷◌}
use linux_kernel_os.Ports.{Out, outb}
use linux_kernel_os.Pic.{Pic, enable_irq}

-- MODE_3, CMD_REG, PIT_VALUE and CHANNEL_0
abbrev pub mode_3 : ℕ
mode_3 = 0x36

abbrev pub cmd_reg : ℕ
cmd_reg = 0x43

abbrev pub pit_value : ℕ
pit_value = 298295

abbrev pub channel_0 : ℕ
channel_0 = 0x40

-- `currentIndex`, `pit_interrupt_count`, and the port writes, the latest first.
pub record Pit : Type 0 where
  pub current_index : ℕ
  pub interrupt_count : ℕ
  pub sent : List Out

-- Each of the two writes of the divisor passes on a byte.
unfoldable pub init_pit : Pit → Pic → Pit × Pic
init_pit p pic = (
  record p {
    sent =
        outb (pit_value / 2 ^ 8) channel_0
        ∷ outb (pit_value % 256) channel_0
        ∷ outb mode_3 cmd_reg
        ∷ p.sent;
    current_index = 2;
    interrupt_count = 0;
  },
  enable_irq pic 0,
)
