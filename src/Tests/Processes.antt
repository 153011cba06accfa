-- ===== src/Tests/Processes.antt =====
-- The system calls on a small kernel.
use linux_kernel_os.Fs.{fs_close}
use linux_kernel_os.Prelude.Int.{pos}
use linux_kernel_os.Paging.Translate.{translate}
use linux_kernel_os.Memory.Write.{write_bytes}
use linux_kernel_os.Fs.Image.{file_bytes}
use linux_kernel_os.Process.{
  std_in, std_out, file_ops, FileDesc, Processes, get_pcb_by_id, get_current_pcb, arguments_at,
  init_pcb,
}
use linux_kernel_os.Strings.{IsString}
use linux_kernel_os.Prelude.{
  ltb, ◌==◌, if◌then◌else◌, Bool-cases, ℕ, ◌≤◌, ◌<◌, ◌≡◌, refl, inl, inr, true, false, some, [],
  ◌∷◌, arith,
}
use linux_kernel_os.Memory.{Memory}
use linux_kernel_os.Tests.Images.{disk, image, image-IsFile, tables, tables-IsLinked}
use linux_kernel_os.Tests.Devices.{devices, clock, controllers}
use linux_kernel_os.Files.Close.{close-freed}
use linux_kernel_os.Files.Position.{fs_read-file_bytes}
use linux_kernel_os.Files.Reachable.{
  AllAssigned, closes, Reachable, here, after, Reachable-AllAssigned,
}
use linux_kernel_os.Files.{open_entry, fs_read, close_fd, close}
use linux_kernel_os.Files.Descriptors.{opened, fds_with, open_entry-opened}
use linux_kernel_os.Run.{link_parent}
use linux_kernel_os.Run.Links.{link_parent-init_pcb}
use linux_kernel_os.Args.{getargs, vidmap}
use linux_kernel_os.Args.Copy.{getargs-write}
use linux_kernel_os.Args.Screen.{vidmap-translate}
use linux_kernel_os.Process.Stack.{get_current_pcb_lem}
use linux_kernel_os.Kernel.{Kernel, Frame, with_memory, pcb_of, fd_of, with_fd, SameTables}

-- Process 0 is the current one. Descriptor 2 of each process is the file of inode 1, at position 2;
-- descriptors 0 and 1 are those of the terminal, and the others are free.
abbrev fds : ℕ → FileDesc
fds i =
    if i == 2
    then record { operations = some file_ops; inode = 1; file_pos = 2; in_use = true }
    else record { operations = some std_in; inode = 0; file_pos = 0; in_use = ltb i 2 }

abbrev processes : (ℕ → FileDesc) → Processes
processes table = record {
  pcbs = λ p. record {
    fds = table;
    process_id = p;
    process_esp = 0;
    process_ebp = 0;
    parent_esp = 0;
    parent_ebp = 0;
    parent_id = p;
    status = 0;
    vidmap_flag = false;
    terminal = 0;
  };
  active = λ p. p == 0;
  current = 0;
  per_terminal = λ t. pos 1;
  pid_in_terminal = λ t. pos 0;
}

-- The arguments "y" of process 0, behind its block, in the memory of the image.
abbrev ram : Memory
ram a = if a == arguments_at 0 then b'y' else image a

abbrev pub kernel : Kernel
kernel = record {
  processes = processes fds;
  fs = disk;
  rtc = clock;
  paging = tables;
  devices = record (devices (λ i. 0) 0) { memory = image };
  terminals = record {
    available = λ t. record {
      terminal_buffer = λ i. 0;
      keyboard_buffer = λ i. 0;
      keyboard_buffer_idx = 0;
      x = pos 0;
      y = pos 0;
      in_use = true;
      terminal_num = t;
    };
    current = 0;
    terminal_buffer = λ i. 0;
  };
  pic = controllers;
  pit = record { current_index = 2; interrupt_count = 3; sent = [] };
  tss_esp0 = 0;
  tss_ss0 = 0;
  entry_pt = 0;
}

-- A call on the stack of process 0. The directory entry of "hi" is the one in the image.
abbrev pub frame : Frame
frame = record {
  esp = 0x7fff00;
  ebp = 0x7fff10;
  dentry = 65600;
  filename = 0x7ffe00;
  elf_buffer = 0x7ffd00;
  entry_buffer = 0x7ffd10;
  magic = 0x7ffd20;
  conv = 0x7ffd30;
  messages = λ s. 0;
  stale = 0;
  rtc_answer = 0;
  interrupts = [];
  scans = [];
}

abbrev argued : Kernel
argued = with_memory kernel ram

argued-IsString : IsString ram (arguments_at 0) (b'y' ∷ [])
unfolding get_pcb_by_id
argued-IsString = ground arith

only_two : (l : ℕ) → 2 ≤ l → l < 3 → (fds l).in_use ≡ true
only_two l lo hi = ground arith

open_entry-opened_example :
    let (k, result) = open_entry frame kernel in
    (result ≡ pos 3)
    × (fd_of k 0 3 ≡ fds_with kernel 0 3 (opened frame kernel) 0 3)
    × SameTables kernel.processes k.processes
open_entry-opened_example =
    open_entry-opened frame kernel 3 0 3 (inr (inr refl)) (omega arith) (omega arith) refl only_two

fs_read-file_bytes_example : fs_read frame kernel 2 400 (pos 10) ≡ (
  with_fd
      (with_memory kernel (write_bytes image 400 (file_bytes disk image 1 2 3)))
      0
      2
      (record (fds 2) { file_pos = 5 }),
  pos 3,
)
unfolding get_pcb_by_id
fs_read-file_bytes_example =
    fs_read-file_bytes frame kernel 2 400 10 (omega arith) (omega arith) (omega arith) image-IsFile
      (omega arith) (omega arith) (omega arith) (λ e. absurd (omega arith)) (inl (omega arith))

close-freed_example :
    (k : Kernel) × (close kernel (pos 2) ≡ some (k, pos 0))
    × ((p j : ℕ) → fd_of k p j ≡ fds_with kernel 0 2 (record (fds 2) { in_use = false }) p j)
    × SameTables kernel.processes k.processes
close-freed_example = close-freed kernel 2 file_ops (omega arith) (omega arith) refl refl

link_parent-init_pcb_example :
    let s = link_parent frame 1 (init_pcb (processes fds) 1 0) in
    let new = s.pcbs 1 in
    (s.current ≡ 1)
    × (s.pid_in_terminal 0 ≡ pos 1)
    × (s.per_terminal 0 ≡ pos 2)
    × (new.process_id ≡ 1)
    × (new.terminal ≡ 0)
    × (new.parent_id ≡ 0)
    × (new.parent_esp ≡ 0x7fff00)
    × (new.parent_ebp ≡ 0x7fff10)
    × ((new.fds 0).operations ≡ some std_in)
    × ((new.fds 1).operations ≡ some std_out)
    × ((new.fds 2).in_use ≡ false)
link_parent-init_pcb_example =
    link_parent-init_pcb frame (processes fds) 1 0 2 (omega arith) (λ p. refl)

getargs-write_example :
    getargs argued 500 (pos 2)
    ≡ some (with_memory argued (write_bytes ram 500 (b'y' ∷ 0 ∷ 0 ∷ [])), pos 0)
unfolding get_pcb_by_id
getargs-write_example =
    getargs-write argued 500 2 (b'y' ∷ []) argued-IsString (omega arith) (omega arith) (omega arith)
      (λ e. absurd (omega arith)) (inl (omega arith))

vidmap-translate_example :
    let (k, result) = vidmap frame kernel 0x8000100 0xc00100 in
    (result ≡ pos 0x8400000)
    × (translate k.paging true 0x8400010 ≡ some 0xb8010)
    × ((pcb_of k 0).vidmap_flag ≡ true)
unfolding get_pcb_by_id
vidmap-translate_example =
    vidmap-translate frame kernel 0x8000100 0xc00100 0x8400010 true (omega arith) (omega arith)
      (omega arith) tables-IsLinked (omega arith) (omega arith) (omega arith) (omega arith)

get_current_pcb_lem_example : get_current_pcb 0x7fff00 ≡ 0x7fe000
unfolding get_pcb_by_id get_current_pcb
get_current_pcb_lem_example =
    get_current_pcb_lem 0 0x7fff00 (omega arith) (omega arith) (omega arith)

-- The kernel when descriptor 2 has been closed.
abbrev closed : Kernel
closed = with_fd kernel 0 2 (record (fds 2) { in_use = false })

closing : Reachable kernel closed
unfolding close close_fd fs_close
closing = after here (closes (pos 2) (pos 0) refl)

pub kernel-AllAssigned : AllAssigned kernel
kernel-AllAssigned p j busy = elim (Bool-cases (j == 2)) [
  | inl file ↦ (file_ops, rw file refl)
  | inr other ↦ (std_in, rw other refl)
]

Reachable-AllAssigned_example : AllAssigned closed
Reachable-AllAssigned_example = Reachable-AllAssigned kernel closed closing kernel-AllAssigned
