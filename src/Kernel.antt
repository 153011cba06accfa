-- ===== src/Kernel.antt =====
-- The state of the whole kernel, and what a system call finds around it.
use linux_kernel_os.Memory.{Memory}
use linux_kernel_os.Pic.{Pic}
use linux_kernel_os.Pit.{Pit}
use linux_kernel_os.Process.{FileDesc, Pcb, Processes, update}
use linux_kernel_os.Terminal.{Terminals}
use linux_kernel_os.Keyboard.{Devices}
use linux_kernel_os.Paging.{Paging}
use linux_kernel_os.Rtc.{Rtc, Interrupt}
use linux_kernel_os.Fs.{Fs}
use linux_kernel_os.Prelude.{ℕ, ◌≡◌, List}

-- The variables of all the components; the memory is that of the devices.
pub record Kernel : Type 0 where
  pub processes : Processes
  pub fs : Fs
  pub rtc : Rtc
  pub paging : Paging
  pub devices : Devices
  pub terminals : Terminals
  pub pic : Pic
  pub pit : Pit
  pub tss_esp0 : ℕ
  pub tss_ss0 : ℕ
  pub entry_pt : ℕ

-- The string literals of `execute` and `halt`, of `switchTerminal` and `IRQ2`, and of the exception
-- handler of a vector.
pub data Message : Type 0 where
  shell pid_failed running original_shell exception exitting creating cascade : Message
  fault : ℕ → Message

-- The stack pointer and the base pointer of a call, the addresses of its local variables, of the
-- buffer of the conversions of `printf` and of the string literals, and what comes from outside while
-- it runs: what the stack held at an uninitialised variable, the clock's answer for register A, the
-- interrupts and the scan codes.
pub record Frame : Type 0 where
  pub esp : ℕ
  pub ebp : ℕ
  pub dentry : ℕ
  pub filename : ℕ
  pub elf_buffer : ℕ
  pub entry_buffer : ℕ
  pub magic : ℕ
  pub conv : ℕ
  pub messages : Message → ℕ
  pub stale : ℕ
  pub rtc_answer : ℕ
  pub interrupts : List Interrupt
  pub scans : List ℕ

abbrev pub memory_of : Kernel → Memory
memory_of k = k.devices.memory

abbrev pub with_memory : Kernel → Memory → Kernel
with_memory k m = record k { devices = record k.devices { memory = m } }

abbrev pub pcb_of : Kernel → ℕ → Pcb
pcb_of k pid = k.processes.pcbs pid

abbrev pub current_pid : Kernel → ℕ
current_pid k = k.processes.current

abbrev pub with_pcb : Kernel → ℕ → Pcb → Kernel
with_pcb k pid p = record k {
  processes = record k.processes { pcbs = update k.processes.pcbs pid p };
}

abbrev pub fd_of : Kernel → ℕ → ℕ → FileDesc
fd_of k pid fd = (pcb_of k pid).fds fd

abbrev pub with_fd : Kernel → ℕ → ℕ → FileDesc → Kernel
with_fd k pid fd f = with_pcb k pid (record (pcb_of k pid) { fds = update (pcb_of k pid).fds fd f })

-- What the calls on descriptors leave alone: all but the blocks of the processes.
abbrev pub SameTables : Processes → Processes → Type 0
SameTables s t =
    (t.active ≡ s.active)
    × (t.current ≡ s.current)
    × (t.per_terminal ≡ s.per_terminal)
    × (t.pid_in_terminal ≡ s.pid_in_terminal)
