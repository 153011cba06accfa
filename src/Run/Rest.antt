-- ===== src/Run/Rest.antt =====
-- What the loop of `halt` over the descriptors leaves alone, besides the tables of processes.
use linux_kernel_os.Prelude.{
  ◌>>=◌, ltb, if◌then◌else◌, ℕ, zero, suc, ◌+◌, ◌≡◌, refl, Bool, true, false, not, ◌&&◌, ◌||◌,
  Option, none, some, arith,
}
use linux_kernel_os.Prelude.Int.{ℤ, pos, negsuc, fail, is_zero}
use linux_kernel_os.Process.{Ops, std_in, std_out, rtc_ops, dir_ops, file_ops, FileDesc}
use linux_kernel_os.Kernel.{Kernel, current_pid, pcb_of, fd_of, with_fd}
use linux_kernel_os.Files.Control.{blank_fds}
use linux_kernel_os.Files.{close_fd, close}
use linux_kernel_os.Files.Reachable.{Leaves, Leaves-if, Leaves-status}
use linux_kernel_os.Run.{close_loop}

-- The blocks but for the descriptors, the page tables, the devices and the TSS.
abbrev pub SameRest : Kernel → Kernel → Type 0
SameRest k k' =
    ((p : ℕ) (d : FileDesc) → blank_fds (pcb_of k' p) d ≡ blank_fds (pcb_of k p) d)
    × (k'.paging ≡ k.paging)
    × (k'.devices ≡ k.devices)
    × (k'.tss_esp0 ≡ k.tss_esp0)

pub SameRest-refl : (k : Kernel) → SameRest k k
SameRest-refl k = (λ p d. refl, refl, refl, refl)

with_fd-SameRest :
    (k0 k : Kernel) (pid i : ℕ) (d : FileDesc) → SameRest k0 k → SameRest k0 (with_fd k pid i d)
with_fd-SameRest k0 k pid i d (blocks, paging, devices, tss) =
    (λ p e. ground (arith, blocks p e), paging, devices, tss)

close_fd-SameRest :
    (k0 k : Kernel) (o : Option Ops) → SameRest k0 k → Leaves (SameRest k0) (close_fd k o)
unfolding close_fd
close_fd-SameRest k0 k none same = record {}
close_fd-SameRest k0 k (some std_in) same = same
close_fd-SameRest k0 k (some std_out) same = same
close_fd-SameRest k0 k (some rtc_ops) same = same
close_fd-SameRest k0 k (some dir_ops) same = same
close_fd-SameRest k0 k (some file_ops) same = same

close-SameRest : (k0 k : Kernel) (fd : ℤ) → SameRest k0 k → Leaves (SameRest k0) (close k fd)
unfolding close
close-SameRest k0 k (negsuc d) same = same
close-SameRest k0 k (pos fd) same =
    let d = fd_of k (current_pid k) fd in
    let freed = with_fd k (current_pid k) fd (record d { in_use = false }) in
    let status = λ (z : ℤ). if is_zero z then pos 0 else fail in
    Leaves-if (SameRest k0) (ltb fd 2 || ltb 7 fd || not d.in_use) (some (k, fail))
      (close_fd freed d.operations >>= λ a. some (a.0, status a.1)) same
      (Leaves-status (SameRest k0) (close_fd freed d.operations) status (
        close_fd-SameRest k0 freed d.operations
          (with_fd-SameRest k0 k (current_pid k) fd (record d { in_use = false }) same)))

-- A property of the state that a run ends in, if it does.
abbrev pub Ends : (Kernel → Type 0) → Option Kernel → Type 0
Ends P none = Unit
Ends P (some k) = P k

Ends-bind :
    (P : Kernel → Type 0) (x : Option Kernel) (h : Kernel → Option Kernel)
    → Ends P x
    → ((k : Kernel) → P k → Ends P (h k))
    → Ends P (x >>= h)
Ends-bind P none h p each = record {}
Ends-bind P (some k) h p each = each k p

Ends-Leaves :
    (P : Kernel → Type 0) (x : Option (Kernel × ℤ)) → Leaves P x → Ends P (x >>= λ r. some r.0)
Ends-Leaves P none p = record {}
Ends-Leaves P (some r) p = p

Ends-if :
    (P : Kernel → Type 0) (b : Bool) (x y : Option Kernel)
    → Ends P x
    → Ends P y
    → Ends P (if b then x else y)
Ends-if P true x y p q = p
Ends-if P false x y p q = q

pub close_loop-SameRest :
    (r : ℕ) (k0 k : Kernel) (pid i : ℕ) → SameRest k0 k → Ends (SameRest k0) (close_loop r k pid i)
unfolding close_loop
close_loop-SameRest zero k0 k pid i same = same
close_loop-SameRest (suc r) k0 k pid i same =
    let busy = (fd_of k pid i).in_use && ltb 1 i in
    let closing : Option Kernel = close k (pos i) >>= λ r'. some r'.0 in
    let each = λ (k' : Kernel) (s : SameRest k0 k').
      close_loop-SameRest r k0 (with_fd k' pid i (record (fd_of k' pid i) { in_use = false })) pid
        (i + 1) (with_fd-SameRest k0 k' pid i (record (fd_of k' pid i) { in_use = false }) s) in
    Ends-bind (SameRest k0) (if busy then closing else some k) _
      (Ends-if (SameRest k0) busy closing (some k)
        (Ends-Leaves (SameRest k0) (close k (pos i)) (close-SameRest k0 k (pos i) same)) same)
      each
