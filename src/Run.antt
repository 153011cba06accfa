-- ===== src/Run.antt =====
-- `execute` and `halt` in student-distrib/systemCalls/systemCalls.c: how a process starts, and how it
-- gives the processor back. The switch to the program and back is assembly; it is an outcome here,
-- with the values that the code loads into the registers.
pub mod Create
pub mod Execute
pub mod Input
pub mod Leave
pub mod Links
pub mod Buffer
pub mod Command
pub mod Load
pub mod Lookup
pub mod Refusal
pub mod Release
pub mod Rest
pub mod Return
pub mod Speak
pub mod Start
use linux_kernel_os.Files.{close}
use linux_kernel_os.Fs.Dentry.{read_dentry_by_name}
use linux_kernel_os.Prelude.Int.{ℤ, pos, negsuc, fail, is_fail, lt_int, uint32, is_zero, minus}
use linux_kernel_os.Kernel.{
  Kernel, Message, shell, pid_failed, running, original_shell, exception, exitting, Frame,
  memory_of, with_memory, pcb_of, current_pid, with_pcb, fd_of, with_fd,
}
use linux_kernel_os.Print.{printf}
use linux_kernel_os.Strings.{strlen, strncmp, strcpy}
use linux_kernel_os.Fs.{inode_num, read_data}
use linux_kernel_os.Memory.{Memory, null, store, load32}
use linux_kernel_os.Process.{
  max_fd, pcb_addr, pcb_8kb, Processes, update, arguments_at, get_unused_process_id, init_pcb,
}
use linux_kernel_os.Paging.{create_page_dir_entry, reclaim_video_memory}
use linux_kernel_os.Keyboard.{buffer_size}
use linux_kernel_os.Prelude.{
  ltb, ◌==◌, if◌then◌else◌, ◌>>=◌, ℕ, zero, suc, ◌+◌, ◌-◌, ◌*◌, ◌%◌, ◌^◌, true, false, not, ◌&&◌,
  Option, none, some,
}

-- How a call ends: it returns to its caller; the program is entered by `iret`, at an instruction and
-- with a stack pointer, and the segments of the user; or the `execute` that started the process
-- returns, with the status and its stack and base pointers.
pub data Outcome : Type 0 where
  returned : ℤ → Outcome
  entered : (eip esp cs ss : ℕ) → Outcome
  resumed : (status esp ebp : ℕ) → Outcome

-- _4MB and _8MB
abbrev pub page_of_process : ℕ → ℕ
page_of_process pid = (pid * 0x400000 + 0x800000) % 2 ^ 32

-- PROG_IMG_OFFSET, KERNEL_DS, USER_CS, USER_DS and PG_BOTTOM
abbrev pub image_offset : ℕ
image_offset = 0x48000

abbrev pub kernel_ds : ℕ
kernel_ds = 0x18

abbrev pub user_cs : ℕ
user_cs = 0x23

abbrev pub user_ds : ℕ
user_ds = 0x2b

abbrev pub page_bottom : ℕ
page_bottom = 0x83ffffc

-- A call of `printf` with one argument.
unfoldable pub say : Frame → Message → ℤ → Kernel → Option Kernel
say f message value k = do
  (m, c, count) ←
      printf (memory_of k) k.devices.console f.conv (f.messages message) (λ i. uint32 value)
  some (record k { devices = record k.devices { memory = m; console = c } })

-- `for (; i < KEYBOARD_BUFFER_SIZE; i++) if (command[i] != ' ') break;`, and the same for `== ' '`,
-- with the rounds that are left.
unfoldable pub skip_spaces : ℕ → Memory → ℕ → ℕ → ℕ
skip_spaces zero m command i = i
skip_spaces (suc k) m command i =
    let rest = skip_spaces k m command (i + 1) in if m (command + i) == b' ' then rest else i

unfoldable pub skip_word : ℕ → Memory → ℕ → ℕ → ℕ
skip_word zero m command i = i
skip_word (suc k) m command i =
    let rest = skip_word k m command (i + 1) in if m (command + i) == b' ' then i else rest

-- Where the name of a command begins, and where its arguments do, from there.
unfoldable pub name_index : Memory → ℕ → ℕ
name_index m command = skip_spaces buffer_size m command 0

unfoldable pub argument_index : Memory → ℕ → ℕ → ℕ
argument_index m command start =
    let end = skip_word (buffer_size - start) m command start in
    skip_spaces (buffer_size - end) m command end

-- The initialiser of `elf_magic_number`.
unfoldable pub write_magic : Memory → ℕ → Memory
write_magic m p = store (store (store (store m p 0x7f) (p + 1) 0x45) (p + 2) 0x4c) (p + 3) 0x46

-- The links that a new process gets: the process at the top of the terminal is its parent, or it
-- itself where there is none.
unfoldable pub link_parent : Frame → ℕ → Processes → Processes
link_parent f pid s =
    let fresh = s.pcbs pid in
    let parent : ℕ = elim (s.pid_in_terminal fresh.terminal) [
      | pos p ↦ (s.pcbs p).process_id
      | negsuc n ↦ fresh.process_id
    ] in
    record s {
      pcbs =
          update s.pcbs pid
            (record fresh { parent_ebp = f.ebp; parent_esp = f.esp; parent_id = parent });
      current = pid;
      pid_in_terminal = update s.pid_in_terminal fresh.terminal (pos pid);
    }

-- The part of `execute` from the process id on, for the file of an inode.
unfoldable pub start_process : Frame → Kernel → ℕ → ℕ → ℕ → Option (Kernel × Outcome)
unfolding link_parent
start_process f k pid inode arguments = do
  let s = record k.processes { active = update k.processes.active pid true }
  let linked = link_parent f pid (init_pcb s pid k.terminals.current)
  m ← strcpy (memory_of k) (arguments_at pid) arguments
  let paging = create_page_dir_entry k.paging (page_of_process pid)
  let loaded = (read_data k.fs m inode 0 (page_of_process pid + image_offset) 0x400000).0
  let k' = record (with_memory k loaded) {
    processes = linked;
    paging = paging;
    tss_esp0 = pcb_addr - pcb_8kb * pid - 4;
    tss_ss0 = kernel_ds;
  }
  k'' ← say f running (linked.per_terminal (linked.pcbs pid).terminal) k'
  some (k'', entered k.entry_pt page_bottom user_cs user_ds)

-- The part from the search of the process id on.
unfoldable pub create_process : Frame → Kernel → ℕ → ℕ → Option (Kernel × Outcome)
unfolding start_process
create_process f k inode arguments = elim (get_unused_process_id k.processes) [
  | none ↦ do k' ← say f pid_failed (pos 0) k; some (k', returned fail)
  | some pid ↦ start_process f k pid inode arguments
]

-- The part from the directory entry on, which is that of a file: the test of the magic number, and
-- the entry point at the bytes 24 to 27.
unfoldable pub load_program : Frame → Kernel → ℕ → Option (Kernel × Outcome)
unfolding create_process
load_program f k arguments =
    let inode = inode_num (memory_of k) f.dentry in
    let m = (read_data k.fs (memory_of k) inode 0 f.elf_buffer 4).0 in
    let m' = (read_data k.fs m inode 24 f.entry_buffer 4).0 in
    let read = record (with_memory k m') { entry_pt = load32 m' f.entry_buffer } in
    if not (is_zero (strncmp m f.magic f.elf_buffer 4))
    then some (with_memory k m, returned fail)
    else create_process f read inode arguments

-- The part of `execute` behind its first test.
unfoldable pub find_program : Frame → Kernel → ℕ → Option (Kernel × Outcome)
unfolding load_program
find_program f k command = do
  let m = write_magic (memory_of k) f.magic
  m' ← strcpy m f.filename (command + name_index m command)
  (m'', status) ← read_dentry_by_name k.fs m' f.filename f.dentry
  let k' = with_memory k m''
  let arguments = command + argument_index m' command (name_index m command)
  if is_fail status then some (k', returned fail) else load_program f k' arguments

unfoldable pub execute : Frame → Kernel → ℕ → Option (Kernel × Outcome)
unfolding find_program
execute f k command =
    let go : Option (Kernel × Outcome) = (do
      len ← strlen (memory_of k) command
      if ltb (buffer_size - 1) len then some (k, returned fail) else find_program f k command) in
    if command == null then some (k, returned fail) else go

-- The loop of `halt` over the descriptors of the process `pid`, with the rounds that are left. `close`
-- works on the current process.
unfoldable pub close_loop : ℕ → Kernel → ℕ → ℕ → Option Kernel
close_loop zero k pid i = some k
close_loop (suc r) k pid i = do
  k' ← (if (fd_of k pid i).in_use && ltb 1 i then (close k (pos i) >>= λ r'. some r'.0) else some k)
  close_loop r (with_fd k' pid i (record (fd_of k' pid i) { in_use = false })) pid (i + 1)

-- The status of the process that ends, 256 for that of an exception.
unfoldable pub mark_status : Frame → Kernel → ℕ → ℕ → Option Kernel
mark_status f k self status =
    let marked = with_pcb k self (record (pcb_of k self) { status = status }) in
    if status == 255
    then (do
      spoken ← say f exception (pos 0) marked
      some (with_pcb spoken self (record (pcb_of spoken self) { status = 256 })))
    else some marked

-- The parent becomes the current process again, with its page.
unfoldable pub to_parent : Kernel → ℕ → Kernel
to_parent k self =
    let me = pcb_of k self in
    let paging = create_page_dir_entry k.paging (page_of_process me.parent_id) in
    record k {
      processes = record k.processes {
        active = update k.processes.active k.processes.current false;
        current = me.parent_id;
        pid_in_terminal = update k.processes.pid_in_terminal me.terminal (pos me.parent_id);
      };
      paging = if me.vidmap_flag then reclaim_video_memory paging else paging;
    }

-- The end of `halt`, from the stack pointer in the TSS on.
unfoldable pub resume_parent : Frame → Kernel → ℕ → Option (Kernel × Outcome)
resume_parent f k self = do
  let me = pcb_of k self
  let k' = record k { tss_esp0 = me.parent_esp }
  spoken ← say f exitting (k'.processes.per_terminal me.terminal) k'
  some (
    record spoken {
      processes = record spoken.processes {
        per_terminal =
            update spoken.processes.per_terminal me.terminal
              (minus (spoken.processes.per_terminal me.terminal) 1);
      };
    },
    resumed (pcb_of spoken self).status me.parent_esp me.parent_ebp,
  )

-- The part of `halt` behind the test for the base shell, for the process that was the current one at
-- the call.
unfoldable pub leave_process : Frame → Kernel → ℕ → ℕ → Option (Kernel × Outcome)
unfolding mark_status to_parent close_loop resume_parent
leave_process f k self status = do
  marked ← mark_status f k self status
  closed ← close_loop max_fd (to_parent marked self) self 0
  resume_parent f closed self

-- How `halt` goes on when the `execute` of a new base shell has come to an end: not at all, if the
-- shell was entered.
unfoldable pub after_shell : Frame → ℕ → ℕ → Kernel × Outcome → Option (Kernel × Outcome)
unfolding leave_process
after_shell f self status (k, returned r) = leave_process f k self status
after_shell f self status (k, entered eip esp cs ss) = some (k, entered eip esp cs ss)
after_shell f self status (k, resumed s esp ebp) = some (k, resumed s esp ebp)

-- `halt`; `g` is the frame of its call of `execute`.
unfoldable pub halt : Frame → Frame → Kernel → ℕ → Option (Kernel × Outcome)
unfolding after_shell
halt f g k status =
    let self = current_pid k in
    let t = (pcb_of k self).terminal in
    let restart : Option (Kernel × Outcome) = (do
      k1 ← say f original_shell (pos 0) k
      let k2 = record k1 {
        processes = record k1.processes {
          active = update k1.processes.active self false;
          pid_in_terminal = update k1.processes.pid_in_terminal t (negsuc 0);
          per_terminal = update k1.processes.per_terminal t (minus (k1.processes.per_terminal t) 1);
        };
      }
      r ← execute g k2 (g.messages shell)
      after_shell f self status r) in
    if lt_int (pos 1) (k.processes.per_terminal t) then leave_process f k self status else restart
