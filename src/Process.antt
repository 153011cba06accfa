-- ===== src/Process.antt =====
-- student-distrib/systemCalls/pcb.c: the process control blocks and the tables of processes. The
-- scalars of a block are a record; its buffer of arguments stands in the memory, at its address,
-- since the string routines work on it.
use linux_kernel_os.Prelude.{
  ltb, ◌==◌, if◌then◌else◌, ℕ, zero, suc, ◌+◌, ◌-◌, ◌*◌, ◌/◌, Bool, true, false, Option, none, some,
}
use linux_kernel_os.Prelude.Int.{ℤ, fail, plus}
pub mod Slots
pub mod Stack
use Prim.Native.Nat.{bit_and}

-- MAX_PCB, MAX_FD, MAX_FDESC, FD_STDOUT
abbrev pub max_pcb : ℕ
max_pcb = 6

abbrev pub max_fd : ℕ
max_fd = 8

-- PCB_ADDR, PCB_8KB and PCB_MASK
abbrev pub pcb_addr : ℕ
pcb_addr = 0x800000

abbrev pub pcb_8kb : ℕ
pcb_8kb = 0x2000

abbrev pub pcb_mask : ℕ
pcb_mask = 0xffffe000

-- The tables of operations that an `ops_t` is a copy of.
pub data Ops : Type 0 where
  std_in std_out rtc_ops dir_ops file_ops : Ops

-- `fileDesc_t`. `operations` is `none` as long as nothing has been assigned to it.
pub record FileDesc : Type 0 where
  pub operations : Option Ops
  pub inode : ℕ
  pub file_pos : ℕ
  pub in_use : Bool

-- `pcb_t`, less `arguments`.
pub record Pcb : Type 0 where
  pub fds : ℕ → FileDesc
  pub process_id : ℕ
  pub process_esp : ℕ
  pub process_ebp : ℕ
  pub parent_esp : ℕ
  pub parent_ebp : ℕ
  pub parent_id : ℕ
  pub status : ℕ
  pub vidmap_flag : Bool
  pub terminal : ℕ

-- The blocks by process id, `activeProccess`, `currentProccess`, `processPerTerminal` and
-- `pid_running_in_terminal`.
pub record Processes : Type 0 where
  pub pcbs : ℕ → Pcb
  pub active : ℕ → Bool
  pub current : ℕ
  pub per_terminal : ℕ → ℤ
  pub pid_in_terminal : ℕ → ℤ

abbrev pub update {ℓ} : {A : Type ℓ} → (ℕ → A) → ℕ → A → ℕ → A
update f i v j = if i == j then v else f j

-- `getPcbById`: the blocks stand below 8 MB, one at the bottom of each 8 KB kernel stack.
unfoldable pub get_pcb_by_id : ℕ → ℕ
get_pcb_by_id pid = pcb_addr - pcb_8kb * (pid + 1)

-- `getCurrentPCB`: the stack pointer, masked.
unfoldable pub get_current_pcb : ℕ → ℕ
get_current_pcb esp = bit_and esp pcb_mask

-- `arguments` is at offset 252 of a `pcb_t`.
abbrev pub arguments_at : ℕ → ℕ
arguments_at pid = get_pcb_by_id pid + 252

-- The process whose block stands at an address.
abbrev pub pid_of_pcb : ℕ → ℕ
pid_of_pcb a = (pcb_addr - a) / pcb_8kb - 1

-- The loop of `getUnusedProcessID` from `i` on, with the rounds that are left.
unfoldable pub unused_loop : ℕ → (ℕ → Bool) → ℕ → Option ℕ
unused_loop zero active i = none
unused_loop (suc k) active i =
    let rest = unused_loop k active (i + 1) in if active i then rest else some i

-- `none` is the -1 of the source.
unfoldable pub get_unused_process_id : Processes → Option ℕ
unfolding unused_loop
get_unused_process_id s = unused_loop max_pcb s.active 0

-- The file descriptor that `initPCB` leaves at index `i`: the operations are assigned for the first
-- two only.
unfoldable pub init_fd : FileDesc → ℕ → FileDesc
init_fd f i =
    let blank = record f { inode = 0; file_pos = 0; in_use = false } in
    if i == 0
    then record blank { operations = some std_in; in_use = true }
    else if i == 1
    then record blank { operations = some std_out; in_use = true }
    else blank

-- `initPCB`, for the terminal on the screen, whose count of processes it raises.
unfoldable pub init_pcb : Processes → ℕ → ℕ → Processes
unfolding init_fd
init_pcb s pid terminal =
    let old = s.pcbs pid in
    let fresh = record old {
      fds = λ i. if ltb i max_fd then init_fd (old.fds i) i else old.fds i;
      process_id = pid;
      process_esp = 0;
      process_ebp = 0;
      parent_id = 0;
      status = 0;
      vidmap_flag = false;
      terminal = terminal;
    } in
    record s {
      pcbs = update s.pcbs pid fresh;
      per_terminal = update s.per_terminal terminal (plus (s.per_terminal terminal) 1);
    }

-- `invalidOP` and `invalidOP2`
unfoldable pub invalid_op : ℤ
invalid_op = fail
