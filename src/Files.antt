-- ===== src/Files.antt =====
-- The system calls on file descriptors, in student-distrib/systemCalls/systemCalls.c: `open`, `read`,
-- `write` and `close`, with the operations that they call through a descriptor. A buffer's address is
-- the one that it has after translation.
pub mod Descriptors
pub mod Position
pub mod Close
pub mod Control
pub mod Reachable
use linux_kernel_os.Prelude.Int.{ℤ, pos, negsuc, fail, is_fail, lt_int, add32, uint32, is_zero}
use linux_kernel_os.Memory.{null}
use linux_kernel_os.Kernel.{
  Kernel, Frame, memory_of, with_memory, pcb_of, current_pid, fd_of, with_fd,
}
use linux_kernel_os.Process.{
  Ops, std_in, std_out, rtc_ops, dir_ops, file_ops, FileDesc, get_current_pcb, pid_of_pcb,
  invalid_op,
}
use linux_kernel_os.Terminal.{terminal_close, terminal_read, terminal_write}
use linux_kernel_os.Rtc.{rtc_open, rtc_write, rtc_close, rtc, rtc_read}
use linux_kernel_os.Fs.Dentry.{read_dentry_by_name, fs_read_directory}
use linux_kernel_os.Fs.{
  file_rtc, file_dir, file_normal, file_type, inode_num, fs_open, fs_close, fs_write,
  fs_open_directory, fs_write_directory, fs_close_directory, read_data,
}
use linux_kernel_os.Prelude.{
  ltb, ◌==◌, if◌then◌else◌, ◌>>=◌, ℕ, zero, suc, ◌+◌, Bool, true, false, not, ◌||◌, Option, none,
  some,
}

-- The loop of `open`: the first descriptor from `i` on that is not in use, with the rounds left.
unfoldable pub free_fd_loop : ℕ → (ℕ → FileDesc) → ℕ → Option ℕ
free_fd_loop zero fds i = none
free_fd_loop (suc r) fds i =
    let rest = free_fd_loop r fds (i + 1) in if (fds i).in_use then rest else some i

-- The descriptors 2 to 7.
unfoldable pub free_fd : (ℕ → FileDesc) → Option ℕ
free_fd fds = free_fd_loop 6 fds 2

-- The `switch` of `open` over the type of the file, for the descriptor `i`, which is marked as in use.
unfoldable pub open_as : Frame → Kernel → ℕ → ℕ → ℕ → Kernel × ℤ
open_as f k i kind inode =
    let pid = current_pid k in
    if kind == file_rtc
    then (let (r, status) = rtc_open f.stale f.rtc_answer k.rtc in
        let k' = record k { rtc = r } in
        if not (is_zero status) then (k', fail) else (
          with_fd k' pid i (record (fd_of k pid i) { inode = 0; operations = some rtc_ops }),
          pos i,
        ))
    else if kind == file_dir
    then (if not (is_zero fs_open_directory) then (k, fail) else (
      with_fd k pid i (record (fd_of k pid i) { inode = 0; operations = some dir_ops }),
      pos i,
    ))
    else if kind == file_normal
    then (let (fs, status) = fs_open k.fs in
        let k' = record k { fs = fs } in
        if not (is_zero status) then (k', fail) else (
          with_fd k' pid i (record (fd_of k pid i) { inode = inode; operations = some file_ops }),
          pos i,
        ))
    else (k, pos i)

-- `open` from the search of a descriptor on.
unfoldable pub open_entry : Frame → Kernel → Kernel × ℤ
unfolding free_fd open_as
open_entry f k =
    let pid = current_pid k in
    elim (free_fd (pcb_of k pid).fds) [
      | none ↦ (k, fail)
      | some i ↦
          open_as f (with_fd k pid i (record (fd_of k pid i) { in_use = true; file_pos = 0 })) i
            (file_type (memory_of k) f.dentry) (inode_num (memory_of k) f.dentry)
    ]

unfoldable pub open_file : Frame → Kernel → ℕ → Option (Kernel × ℤ)
unfolding open_entry
open_file f k filename = do
  (m, status) ← read_dentry_by_name k.fs (memory_of k) filename f.dentry
  let k' = with_memory k m
  some (if is_fail status then (k', fail) else open_entry f k')

-- `fs_read`, through the block that the stack pointer leads to.
unfoldable pub fs_read : Frame → Kernel → ℕ → ℕ → ℤ → Kernel × ℤ
fs_read f k fd buf nbytes =
    let pcb = get_current_pcb f.esp in
    let pid = pid_of_pcb pcb in
    let d = fd_of k pid fd in
    let (m, count) = read_data k.fs (memory_of k) d.inode d.file_pos buf (uint32 nbytes) in
    let k' = with_memory k m in
    if (buf == null) || (pcb == null)
    then (k, fail)
    else if is_fail count
    then (k', fail)
    else (with_fd k' pid fd (record d { file_pos = add32 d.file_pos (uint32 count) }), count)

-- The call through `readFD`. A pointer that has never been assigned leads nowhere: `none`.
unfoldable pub read_fd : Frame → Kernel → Option Ops → ℕ → ℕ → ℤ → Option (Kernel × ℤ)
unfolding fs_read
read_fd f k none fd buf nbytes = none
read_fd f k (some std_in) fd buf nbytes = do
  (d, scans, count) ← terminal_read k.devices f.scans buf nbytes
  some (record k { devices = d }, count)
read_fd f k (some std_out) fd buf nbytes = some (k, invalid_op)
read_fd f k (some rtc_ops) fd buf nbytes = do
  (r, rest, count) ← rtc_read k.rtc f.interrupts
  some (record k { rtc = r }, count)
read_fd f k (some dir_ops) fd buf nbytes = do
  (fs, m, count) ← fs_read_directory k.fs (memory_of k) f.dentry buf
  some (record (with_memory k m) { fs = fs }, count)
read_fd f k (some file_ops) fd buf nbytes = some (fs_read f k fd buf nbytes)

-- The call through `writeFD`.
unfoldable pub write_fd : Frame → Kernel → Option Ops → ℕ → ℤ → Option (Kernel × ℤ)
write_fd f k none buf nbytes = none
write_fd f k (some std_in) buf nbytes = some (k, invalid_op)
write_fd f k (some std_out) buf nbytes =
    let (d, count) = terminal_write k.devices buf nbytes in some (record k { devices = d }, count)
write_fd f k (some rtc_ops) buf nbytes =
    let (r, count) = rtc_write f.stale f.rtc_answer (memory_of k) k.rtc buf in
    some (record k { rtc = r }, count)
write_fd f k (some dir_ops) buf nbytes = some (k, fs_write_directory)
write_fd f k (some file_ops) buf nbytes = some (k, fs_write)

-- The call through `closeFD`.
unfoldable pub close_fd : Kernel → Option Ops → Option (Kernel × ℤ)
close_fd k none = none
close_fd k (some std_in) = some (k, terminal_close)
close_fd k (some std_out) = some (k, terminal_close)
close_fd k (some rtc_ops) = some (k, rtc_close)
close_fd k (some dir_ops) = some (k, fs_close_directory)
close_fd k (some file_ops) = let (fs, status) = fs_close k.fs in some (record k { fs = fs }, status)

-- The tests that `read` and `write` make before they call an operation.
unfoldable pub refuses : Kernel → ℤ → ℕ → ℤ → Bool
refuses k (negsuc n) buf nbytes = true
refuses k (pos fd) buf nbytes =
    ltb 7 fd
    || (buf == null)
    || not (lt_int (pos 0) nbytes)
    || not (fd_of k (current_pid k) fd).in_use

unfoldable pub read : Frame → Kernel → ℤ → ℕ → ℤ → Option (Kernel × ℤ)
unfolding refuses
read f k (negsuc n) buf nbytes = some (k, fail)
read f k (pos fd) buf nbytes =
    if refuses k (pos fd) buf nbytes
    then some (k, fail)
    else read_fd f k (fd_of k (current_pid k) fd).operations fd buf nbytes

unfoldable pub write : Frame → Kernel → ℤ → ℕ → ℤ → Option (Kernel × ℤ)
unfolding refuses
write f k (negsuc n) buf nbytes = some (k, fail)
write f k (pos fd) buf nbytes =
    if refuses k (pos fd) buf nbytes
    then some (k, fail)
    else write_fd f k (fd_of k (current_pid k) fd).operations buf nbytes

unfoldable pub close : Kernel → ℤ → Option (Kernel × ℤ)
unfolding close_fd
close k (negsuc n) = some (k, fail)
close k (pos fd) =
    let pid = current_pid k in
    let d = fd_of k pid fd in
    if ltb fd 2 || ltb 7 fd || not d.in_use then some (k, fail) else do
      (k', status) ← close_fd (with_fd k pid fd (record d { in_use = false })) d.operations
      some (k', if is_zero status then pos 0 else fail)
