-- ===== src/Files/Control.antt =====
-- What the calls `open`, `read`, `write` and `close` in student-distrib/systemCalls/systemCalls.c leave
-- alone: who runs, who is whose parent, and the page tables.
use mathlib.Core.Path.{subst}
use linux_kernel_os.Terminal.{terminal_read}
use linux_kernel_os.Rtc.{rtc_open, rtc_read}
use linux_kernel_os.Fs.Dentry.{read_dentry_by_name, fs_read_directory}
use linux_kernel_os.Fs.{
  file_rtc, file_dir, file_normal, file_type, inode_num, fs_open, fs_open_directory, read_data,
}
use linux_kernel_os.Memory.{null}
use linux_kernel_os.Prelude.{
  ltb, ◌==◌, if◌then◌else◌, ◌>>=◌, ℕ, ◌≡◌, refl, Bool, true, false, not, ◌||◌, Option, none, some,
  arith,
}
use linux_kernel_os.Prelude.Int.{ℤ, pos, negsuc, fail, is_fail, add32, uint32, is_zero}
use linux_kernel_os.Process.{
  Ops, std_in, std_out, rtc_ops, dir_ops, file_ops, FileDesc, Pcb, get_current_pcb, pid_of_pcb,
}
use linux_kernel_os.Kernel.{
  Kernel, Frame, memory_of, with_memory, pcb_of, current_pid, fd_of, with_fd, SameTables,
}
use linux_kernel_os.Files.Reachable.{
  Leaves, Leaves-bind, Leaves-if, Leaves-status, same_pair, Step, opens, reads, writes, closes,
  Reachable, here, after,
}
use linux_kernel_os.Files.{
  free_fd, open_as, open_entry, open_file, fs_read, read_fd, write_fd, close_fd, refuses, read,
  write, close,
}

-- The block of a process but for its descriptors.
abbrev pub blank_fds : Pcb → FileDesc → Pcb
blank_fds p d = record p { fds = λ i. d }

-- The tables of processes, the blocks but for the descriptors, and the page tables are the same.
abbrev pub SameControl : Kernel → Kernel → Type 0
SameControl k k' =
    ((p : ℕ) (d : FileDesc) → blank_fds (pcb_of k' p) d ≡ blank_fds (pcb_of k p) d)
    × SameTables k.processes k'.processes
    × (k'.paging ≡ k.paging)

pub SameControl-refl : (k : Kernel) → SameControl k k
SameControl-refl k = (λ p d. refl, (refl, refl, refl, refl), refl)

pub with_fd-SameControl :
    (k0 k : Kernel) (pid i : ℕ) (d : FileDesc)
    → SameControl k0 k
    → SameControl k0 (with_fd k pid i d)
with_fd-SameControl k0 k pid i d (blocks, tables, paging) =
    (λ p e. ground (arith, blocks p e), tables, paging)

module _ (k0 : Kernel) where
  abbrev Same : Kernel → Type 0
  Same k = SameControl k0 k

  fs_read-Same :
      (f : Frame) (k : Kernel) (fd buf : ℕ) (n : ℤ) → Same k → Same (fs_read f k fd buf n).0
  unfolding fs_read
  fs_read-Same f k fd buf n same =
      let pcb = get_current_pcb f.esp in
      let pid = pid_of_pcb pcb in
      let d = fd_of k pid fd in
      let (m, count) = read_data k.fs (memory_of k) d.inode d.file_pos buf (uint32 n) in
      let d' = record d { file_pos = add32 d.file_pos (uint32 count) } in
      let k' = with_memory k m in
      same_pair Same ((buf == null) || (pcb == null)) (k, fail)
        (if is_fail count then (k', fail) else (with_fd k' pid fd d', count)) same
        (same_pair Same (is_fail count) (k', fail) (with_fd k' pid fd d', count) same
          (with_fd-SameControl k0 k' pid fd d' same))

  read_fd-Same :
      (f : Frame) (k : Kernel) (o : Option Ops) (fd buf : ℕ) (n : ℤ)
      → Same k
      → Leaves Same (read_fd f k o fd buf n)
  unfolding read_fd
  read_fd-Same f k none fd buf n same = record {}
  read_fd-Same f k (some std_in) fd buf n same =
      Leaves-bind Same (terminal_read k.devices f.scans buf n)
        (λ a. some (record k { devices = a.0 }, a.2)) (λ a. same)
  read_fd-Same f k (some std_out) fd buf n same = same
  read_fd-Same f k (some rtc_ops) fd buf n same =
      Leaves-bind Same (rtc_read k.rtc f.interrupts) (λ a. some (record k { rtc = a.0 }, a.2))
        (λ a. same)
  read_fd-Same f k (some dir_ops) fd buf n same =
      Leaves-bind Same (fs_read_directory k.fs (memory_of k) f.dentry buf)
        (λ a. some (record (with_memory k a.1) { fs = a.0 }, a.2)) (λ a. same)
  read_fd-Same f k (some file_ops) fd buf n same = fs_read-Same f k fd buf n same

  write_fd-Same :
      (f : Frame) (k : Kernel) (o : Option Ops) (buf : ℕ) (n : ℤ)
      → Same k
      → Leaves Same (write_fd f k o buf n)
  unfolding write_fd
  write_fd-Same f k none buf n same = record {}
  write_fd-Same f k (some std_in) buf n same = same
  write_fd-Same f k (some std_out) buf n same = same
  write_fd-Same f k (some rtc_ops) buf n same = same
  write_fd-Same f k (some dir_ops) buf n same = same
  write_fd-Same f k (some file_ops) buf n same = same

  close_fd-Same : (k : Kernel) (o : Option Ops) → Same k → Leaves Same (close_fd k o)
  unfolding close_fd
  close_fd-Same k none same = record {}
  close_fd-Same k (some std_in) same = same
  close_fd-Same k (some std_out) same = same
  close_fd-Same k (some rtc_ops) same = same
  close_fd-Same k (some dir_ops) same = same
  close_fd-Same k (some file_ops) same = same

  read-Same :
      (f : Frame) (k : Kernel) (fd : ℤ) (buf : ℕ) (n : ℤ) → Same k → Leaves Same (read f k fd buf n)
  unfolding read
  read-Same f k (negsuc d) buf n same = same
  read-Same f k (pos fd) buf n same =
      let o = (fd_of k (current_pid k) fd).operations in
      Leaves-if Same (refuses k (pos fd) buf n) (some (k, fail)) (read_fd f k o fd buf n) same
        (read_fd-Same f k o fd buf n same)

  write-Same :
      (f : Frame) (k : Kernel) (fd : ℤ) (buf : ℕ) (n : ℤ)
      → Same k
      → Leaves Same (write f k fd buf n)
  unfolding write
  write-Same f k (negsuc d) buf n same = same
  write-Same f k (pos fd) buf n same =
      let o = (fd_of k (current_pid k) fd).operations in
      Leaves-if Same (refuses k (pos fd) buf n) (some (k, fail)) (write_fd f k o buf n) same
        (write_fd-Same f k o buf n same)

  close-Same : (k : Kernel) (fd : ℤ) → Same k → Leaves Same (close k fd)
  unfolding close
  close-Same k (negsuc d) same = same
  close-Same k (pos fd) same =
      let d = fd_of k (current_pid k) fd in
      let freed = with_fd k (current_pid k) fd (record d { in_use = false }) in
      let status = λ (z : ℤ). if is_zero z then pos 0 else fail in
      Leaves-if Same (ltb fd 2 || ltb 7 fd || not d.in_use) (some (k, fail))
        (close_fd freed d.operations >>= λ a. some (a.0, status a.1)) same
        (Leaves-status Same (close_fd freed d.operations) status (
          close_fd-Same freed d.operations
            (with_fd-SameControl k0 k (current_pid k) fd (record d { in_use = false }) same)))

  -- A descriptor is assigned, unless opening what it stands for failed.
  assigned-Same :
      (k : Kernel) (bad : Bool) (pid i : ℕ) (d : FileDesc)
      → Same k
      → Same (if◌then◌else◌ {A = Kernel × ℤ} bad (k, fail) (with_fd k pid i d, pos i)).0
  assigned-Same k bad pid i d same =
      same_pair Same bad (k, fail) (with_fd k pid i d, pos i) same
        (with_fd-SameControl k0 k pid i d same)

  open_as-Same :
      (f : Frame) (k : Kernel) (i kind inode : ℕ) → Same k → Same (open_as f k i kind inode).0
  unfolding open_as
  open_as-Same f k i kind inode same =
      let pid = current_pid k in
      let (r, opened) = rtc_open f.stale f.rtc_answer k.rtc in
      let (fs, found) = fs_open k.fs in
      same_pair Same (kind == file_rtc) _ _
        (assigned-Same (record k { rtc = r }) (not (is_zero opened)) pid i _ same)
        (same_pair Same (kind == file_dir) _ _
          (assigned-Same k (not (is_zero fs_open_directory)) pid i _ same)
          (same_pair Same (kind == file_normal) _ _
            (assigned-Same (record k { fs = fs }) (not (is_zero found)) pid i _ same) same))

  open_found-Same :
      (f : Frame) (k : Kernel) (o : Option ℕ)
      → free_fd (pcb_of k (current_pid k)).fds ≡ o
      → Same k
      → Same (open_entry f k).0
  unfolding open_entry
  open_found-Same f k none found same = rw (open_entry, found) same
  open_found-Same f k (some i) found same =
      let d = record (fd_of k (current_pid k) i) { in_use = true; file_pos = 0 } in
      rw (open_entry, found)
        (open_as-Same f (with_fd k (current_pid k) i d) i (file_type (memory_of k) f.dentry)
          (inode_num (memory_of k) f.dentry) (with_fd-SameControl k0 k (current_pid k) i d same))

  open_file-Same : (f : Frame) (k : Kernel) (name : ℕ) → Same k → Leaves Same (open_file f k name)
  unfolding open_file
  open_file-Same f k name same =
      Leaves-bind Same (read_dentry_by_name k.fs (memory_of k) name f.dentry) _ (λ a.
        same_pair Same (is_fail a.1) (with_memory k a.0, fail) (open_entry f (with_memory k a.0))
          same
          (open_found-Same f (with_memory k a.0) (free_fd (pcb_of k (current_pid k)).fds) refl
            same))

  Step-Same : (k k' : Kernel) → Step k k' → Same k → Same k'
  Step-Same k k' (opens f name m status r found kind e) same =
      subst (Leaves Same) e (open_file-Same f k name same)
  Step-Same k k' (reads f fd buf n r e) same = subst (Leaves Same) e (read-Same f k fd buf n same)
  Step-Same k k' (writes f fd buf n r e) same = subst (Leaves Same) e (write-Same f k fd buf n same)
  Step-Same k k' (closes fd r e) same = subst (Leaves Same) e (close-Same k fd same)

-- A sequence of calls of `open`, `read`, `write` and `close` leaves the tables of processes, the blocks
-- but for the descriptors, and the page tables.
pub Reachable-SameControl : (k k' : Kernel) → Reachable k k' → SameControl k k'
Reachable-SameControl k k' here = SameControl-refl k
Reachable-SameControl k k' (after {a = a} way step) =
    Step-Same k a k' step (Reachable-SameControl k a way)
