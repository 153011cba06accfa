-- ===== src/Switching.antt =====
-- Which terminal is on the screen: `switchTerminal` of student-distrib/devices/terminal.c, the timer's
-- handler `pit_scheduling` of student-distrib/scheduling/scheduling.c, and the interrupt handlers of
-- student-distrib/interrupts-exceptions/interruptHandlers.c. The interrupt flag is not modelled.
use linux_kernel_os.Prelude.Int.{pos, uint32}
use linux_kernel_os.Run.{Outcome, returned, page_of_process, kernel_ds, say, execute}
use linux_kernel_os.Pic.{Pic, send_eoi}
use linux_kernel_os.Kernel.{Kernel, shell, creating, cascade, Frame, pcb_of, with_pcb}
use linux_kernel_os.Process.{pcb_addr, pcb_8kb}
use linux_kernel_os.Terminal.{put_terminal, switch_screen}
use linux_kernel_os.Paging.{create_page_dir_entry}
use linux_kernel_os.Prelude.{
  ltb, if◌then◌else◌, ◌>>=◌, ℕ, ◌+◌, ◌-◌, ◌*◌, ◌%◌, ◌^◌, true, Option, none, some,
}
pub mod Keys
pub mod Lines
pub mod Tab
pub mod Ticks

-- How `switchTerminal` ends: as the `execute` of a new shell does, or on another kernel stack, with the
-- stack and base pointers that it loads.
pub data Switched : Type 0 where
  launched : Outcome → Switched
  onto : (esp ebp : ℕ) → Switched

abbrev pub with_pic : Kernel → Pic → Kernel
with_pic k pic = record k { pic = pic }

-- `processESP` and `processEBP` of a process, from the registers.
unfoldable pub save_stack : Frame → Kernel → ℕ → Kernel
save_stack f k pid =
    with_pcb k pid (record (pcb_of k pid) { process_esp = f.esp; process_ebp = f.ebp })

-- `switchScreen` from the terminal on the screen, and `currentTerminal`.
unfoldable pub show_terminal : Kernel → ℕ → Option Kernel
show_terminal k index = do
  (d, t) ← switch_screen k.devices k.terminals k.terminals.current index
  some (record k { devices = d; terminals = record t { current = index } })

-- The branch for a terminal that is not in use yet. The process whose stack it saves is the one with
-- the number of the old terminal. `g` is the frame of the call of `execute`.
unfoldable pub create_terminal : Frame → Frame → Kernel → ℕ → Option (Kernel × Switched)
unfolding save_stack show_terminal
create_terminal f g k index = do
  let old = k.terminals.current
  let info = record (k.terminals.available index) { in_use = true }
  let used = record k.terminals { available = put_terminal k.terminals.available index info }
  k' ← show_terminal (record k { terminals = used }) index
  k'' ← say f creating (pos index) k'
  (k''', outcome) ←
      execute g (save_stack f (with_pic k'' (send_eoi k''.pic 1)) old) (g.messages shell)
  some (k''', launched outcome)

-- The process at the top of a terminal; where there is none, the -1 is a word.
abbrev pub top_of : Kernel → ℕ → ℕ
top_of k index = uint32 (k.processes.pid_in_terminal index)

-- The branch for a terminal that is in use.
unfoldable pub resume_terminal : Frame → Kernel → ℕ → Option (Kernel × Switched)
unfolding save_stack show_terminal
resume_terminal f k index = do
  let saved = save_stack f (with_pic k (send_eoi k.pic 1)) k.processes.current
  k' ← show_terminal saved index
  let pid = top_of k' index
  let next = pcb_of k' pid
  some (
    record k' {
      processes = record k'.processes { current = pid };
      tss_esp0 = (pcb_addr + pcb_8kb * (2 ^ 32 - pid) - 4) % 2 ^ 32;
      tss_ss0 = kernel_ds;
      paging = create_page_dir_entry k'.paging (page_of_process pid);
    },
    onto next.process_esp next.process_ebp,
  )

unfoldable pub switch_terminal : Frame → Frame → Kernel → ℕ → Option (Kernel × Switched)
unfolding create_terminal resume_terminal
switch_terminal f g k index =
    if (k.terminals.available index).in_use
    then resume_terminal f k index
    else create_terminal f g k index

-- MAX_TERMINAL_NUMBER
abbrev pub max_terminal : ℕ
max_terminal = 3

-- `pit_scheduling`: the first three ticks switch to the terminals 0, 1 and 2. `none` in the result
-- stands for a tick that switches to no terminal.
unfoldable pub pit_scheduling : Frame → Frame → Kernel → Option (Kernel × Option Switched)
pit_scheduling f g k =
    let count = k.pit.interrupt_count in
    let ticked = record k {
      pit = record k.pit { interrupt_count = count + 1 };
      pic = send_eoi k.pic 0;
    } in
    let switching : Option (Kernel × Option Switched) = (do
      (k', s) ← switch_terminal f g ticked count
      some (k', some s)) in
    if ltb count max_terminal then switching else some (k, none)

-- How `IRQ0` goes on when `pit_scheduling` has come back: with the end of interrupt, unless the
-- processor has gone elsewhere.
unfoldable pub after_tick : Kernel → Option Switched → Kernel × Option Switched
after_tick k none = (with_pic k (send_eoi k.pic 0), none)
after_tick k (some (launched (returned r))) =
    (with_pic k (send_eoi k.pic 0), some (launched (returned r)))
after_tick k (some s) = (k, some s)

unfoldable pub irq0 : Frame → Frame → Kernel → Option (Kernel × Option Switched)
unfolding pit_scheduling after_tick
irq0 f g k = do (k', s) ← pit_scheduling f g k; some (after_tick k' s)

-- `IRQ2` prints, and then does not come back.
unfoldable pub irq2 : Frame → Kernel → Option Kernel
irq2 f k = say f cascade (pos 0) k >>= λ k'. none
