-- ===== src/Switching/Ticks.antt =====
-- The ticks of the timer of student-distrib/scheduling/scheduling.c after the first three.
use linux_kernel_os.Prelude.{◌≤◌, ◌≡◌, none, some, arith}
use linux_kernel_os.Pic.{send_eoi}
use linux_kernel_os.Kernel.{Kernel, Frame}
use linux_kernel_os.Switching.{with_pic, max_terminal, pit_scheduling, after_tick, irq0}

-- From the fourth tick on, the handler of the timer only tells the controller that the interrupt is
-- over: it switches to no terminal.
pub irq0-with_pic :
    (f g : Frame) (k : Kernel)
    → max_terminal ≤ k.pit.interrupt_count
    → irq0 f g k ≡ some (with_pic k (send_eoi k.pic 0), none)
unfolding irq0 pit_scheduling after_tick
irq0-with_pic f g k h = ground (arith, h)
