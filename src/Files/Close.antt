-- ===== src/Files/Close.antt =====
-- What `close` does with a descriptor, and which it refuses.
use linux_kernel_os.Terminal.{terminal_close}
use linux_kernel_os.Rtc.{rtc_close}
use linux_kernel_os.Fs.{fs_close, fs_close_directory}
use linux_kernel_os.Prelude.Int.{pos, fail}
use linux_kernel_os.Files.Descriptors.{fds_with}
use linux_kernel_os.Files.{close_fd, close}
use linux_kernel_os.Kernel.{Kernel, current_pid, fd_of, with_fd, SameTables}
use linux_kernel_os.Process.{Ops, std_in, std_out, rtc_ops, dir_ops, file_ops}
use linux_kernel_os.Prelude.{ℕ, ◌≤◌, ◌<◌, ◌≡◌, ◌⊎◌, true, false, some, arith}

abbrev with_free : Kernel → ℕ → Kernel
with_free k fd =
    let pid = current_pid k in with_fd k pid fd (record (fd_of k pid fd) { in_use = false })

-- A descriptor from 2 to 7 that is in use, and whose operations have been assigned, is closed with the
-- result 0. Then it is free; no other descriptor changes, of this or any other process, and neither do
-- the tables of processes.
pub close-freed :
    (k : Kernel) (fd : ℕ) (o : Ops)
    → 2 ≤ fd
    → fd ≤ 7
    → (fd_of k (current_pid k) fd).in_use ≡ true
    → (fd_of k (current_pid k) fd).operations ≡ some o
    → (k' : Kernel) × (close k (pos fd) ≡ some (k', pos 0))
      × ((p j : ℕ)
          → fd_of k' p j
            ≡ fds_with k
                (current_pid k)
                fd
                (record (fd_of k (current_pid k) fd) { in_use = false })
                p
                j)
      × SameTables k.processes k'.processes
unfolding close close_fd fs_close fs_close_directory terminal_close rtc_close
close-freed k fd std_in lo hi busy assigned =
    (with_free k fd, ground arith, λ p j. ground arith, ground arith)
close-freed k fd std_out lo hi busy assigned =
    (with_free k fd, ground arith, λ p j. ground arith, ground arith)
close-freed k fd rtc_ops lo hi busy assigned =
    (with_free k fd, ground arith, λ p j. ground arith, ground arith)
close-freed k fd dir_ops lo hi busy assigned =
    (with_free k fd, ground arith, λ p j. ground arith, ground arith)
close-freed k fd file_ops lo hi busy assigned =
    let freed = with_free k fd in
    (record freed { fs = (fs_close freed.fs).0 }, ground arith, λ p j. ground arith, ground arith)

-- `close` refuses, without a change, what is not a descriptor from 2 to 7 or is not in use.
pub close_refused :
    (k : Kernel) (fd : ℕ)
    → (fd < 2) ⊎ (7 < fd) ⊎ ((fd_of k (current_pid k) fd).in_use ≡ false)
    → close k (pos fd) ≡ some (k, fail)
unfolding close
close_refused k fd h = ground arith
