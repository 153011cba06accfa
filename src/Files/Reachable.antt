-- ===== src/Files/Reachable.antt =====
-- The states of the descriptors that the calls `open`, `read`, `write` and `close` can lead to, from
-- student-distrib/systemCalls/systemCalls.c.
use linux_kernel_os.Terminal.{terminal_read}
use linux_kernel_os.Rtc.{rtc_read}
use linux_kernel_os.Fs.Dentry.{read_dentry_by_name, fs_read_directory}
use linux_kernel_os.Memory.{Memory, null}
use linux_kernel_os.Fs.{file_type, inode_num, read_data}
use mathlib.Core.Path.{subst}
use linux_kernel_os.Prelude.{
  ltb, ◌==◌, if◌then◌else◌, ◌>>=◌, ℕ, ◌≡◌, refl, sym, ap, ◌∙◌, ◌⊎◌, inl, inr, Bool, true, false,
  not, ◌||◌, Option, none, some, arith,
}
use linux_kernel_os.Prelude.Int.{ℤ, pos, negsuc, fail, is_fail, add32, uint32, is_zero}
use linux_kernel_os.Process.{
  Ops, std_in, std_out, rtc_ops, dir_ops, file_ops, FileDesc, get_current_pcb, pid_of_pcb,
}
use linux_kernel_os.Kernel.{
  Kernel, Frame, memory_of, with_memory, pcb_of, current_pid, fd_of, with_fd,
}
use linux_kernel_os.Files.Descriptors.{ops_for, IsKind, opened, fds_with, open_as-opened}
use linux_kernel_os.Files.{
  free_fd, open_as, open_entry, open_file, fs_read, read_fd, write_fd, close_fd, refuses, read,
  write, close,
}

-- Each descriptor that is in use, of every process, has its operations.
abbrev pub AllAssigned : Kernel → Type 0
AllAssigned k =
    (p j : ℕ) → (fd_of k p j).in_use ≡ true → (o : Ops) × ((fd_of k p j).operations ≡ some o)

-- Descriptors keep their use and their operations.
abbrev SameUse : Kernel → Kernel → Type 0
SameUse k k' =
    (p j : ℕ)
    → ((fd_of k' p j).in_use ≡ (fd_of k p j).in_use)
      × ((fd_of k' p j).operations ≡ (fd_of k p j).operations)

-- A property of the state that a call leaves, if it comes back.
abbrev pub Leaves : (Kernel → Type 0) → Option (Kernel × ℤ) → Type 0
Leaves P none = Unit
Leaves P (some (k, r)) = P k

pub Leaves-bind {ℓ} :
    {A : Type ℓ} (P : Kernel → Type 0) (x : Option A) (h : A → Option (Kernel × ℤ))
    → ((a : A) → Leaves P (h a))
    → Leaves P (x >>= h)
Leaves-bind P none h each = record {}
Leaves-bind P (some a) h each = each a

pub Leaves-if :
    (P : Kernel → Type 0) (b : Bool) (x y : Option (Kernel × ℤ))
    → Leaves P x
    → Leaves P y
    → Leaves P (if b then x else y)
Leaves-if P true x y p q = p
Leaves-if P false x y p q = q

pub same_pair :
    (P : Kernel → Type 0) (b : Bool) (x y : Kernel × ℤ) → P x.0 → P y.0 → P (if b then x else y).0
same_pair P true x y p q = p
same_pair P false x y p q = q

SameUse-refl : (k : Kernel) → SameUse k k
SameUse-refl k p j = (refl, refl)

-- A position that moves.
moved-SameUse :
    (k : Kernel) (m : Memory) (pid fd at : ℕ)
    → SameUse k (with_fd (with_memory k m) pid fd (record (fd_of k pid fd) { file_pos = at }))
moved-SameUse k m pid fd at p j = ground arith

fs_read-SameUse : (f : Frame) (k : Kernel) (fd buf : ℕ) (n : ℤ) → SameUse k (fs_read f k fd buf n).0
unfolding fs_read
fs_read-SameUse f k fd buf n =
    let pcb = get_current_pcb f.esp in
    let pid = pid_of_pcb pcb in
    let d = fd_of k pid fd in
    let (m, count) = read_data k.fs (memory_of k) d.inode d.file_pos buf (uint32 n) in
    let at = add32 d.file_pos (uint32 count) in
    let k' = with_fd (with_memory k m) pid fd (record d { file_pos = at }) in
    same_pair (SameUse k) ((buf == null) || (pcb == null)) (k, fail)
      (if is_fail count then (with_memory k m, fail) else (k', count)) (SameUse-refl k)
      (same_pair (SameUse k) (is_fail count) (with_memory k m, fail) (k', count) (SameUse-refl k)
        (moved-SameUse k m pid fd at))

read_fd-SameUse :
    (f : Frame) (k : Kernel) (o : Option Ops) (fd buf : ℕ) (n : ℤ)
    → Leaves (SameUse k) (read_fd f k o fd buf n)
unfolding read_fd
read_fd-SameUse f k none fd buf n = record {}
read_fd-SameUse f k (some std_in) fd buf n =
    Leaves-bind (SameUse k) (terminal_read k.devices f.scans buf n)
      (λ a. some (record k { devices = a.0 }, a.2)) (λ a. SameUse-refl k)
read_fd-SameUse f k (some std_out) fd buf n = SameUse-refl k
read_fd-SameUse f k (some rtc_ops) fd buf n =
    Leaves-bind (SameUse k) (rtc_read k.rtc f.interrupts) (λ a. some (record k { rtc = a.0 }, a.2))
      (λ a. SameUse-refl k)
read_fd-SameUse f k (some dir_ops) fd buf n =
    Leaves-bind (SameUse k) (fs_read_directory k.fs (memory_of k) f.dentry buf)
      (λ a. some (record (with_memory k a.1) { fs = a.0 }, a.2)) (λ a. SameUse-refl k)
read_fd-SameUse f k (some file_ops) fd buf n = fs_read-SameUse f k fd buf n

read-SameUse :
    (f : Frame) (k : Kernel) (fd : ℤ) (buf : ℕ) (n : ℤ) → Leaves (SameUse k) (read f k fd buf n)
unfolding read
read-SameUse f k (negsuc d) buf n = SameUse-refl k
read-SameUse f k (pos fd) buf n =
    let o = (fd_of k (current_pid k) fd).operations in
    Leaves-if (SameUse k) (refuses k (pos fd) buf n) (some (k, fail)) (read_fd f k o fd buf n)
      (SameUse-refl k) (read_fd-SameUse f k o fd buf n)

write_fd-SameUse :
    (f : Frame) (k : Kernel) (o : Option Ops) (buf : ℕ) (n : ℤ)
    → Leaves (SameUse k) (write_fd f k o buf n)
unfolding write_fd
write_fd-SameUse f k none buf n = record {}
write_fd-SameUse f k (some std_in) buf n = SameUse-refl k
write_fd-SameUse f k (some std_out) buf n = SameUse-refl k
write_fd-SameUse f k (some rtc_ops) buf n = SameUse-refl k
write_fd-SameUse f k (some dir_ops) buf n = SameUse-refl k
write_fd-SameUse f k (some file_ops) buf n = SameUse-refl k

write-SameUse :
    (f : Frame) (k : Kernel) (fd : ℤ) (buf : ℕ) (n : ℤ) → Leaves (SameUse k) (write f k fd buf n)
unfolding write
write-SameUse f k (negsuc d) buf n = SameUse-refl k
write-SameUse f k (pos fd) buf n =
    let o = (fd_of k (current_pid k) fd).operations in
    Leaves-if (SameUse k) (refuses k (pos fd) buf n) (some (k, fail)) (write_fd f k o buf n)
      (SameUse-refl k) (write_fd-SameUse f k o buf n)

AllAssigned-SameUse : (k k' : Kernel) → AllAssigned k → SameUse k k' → AllAssigned k'
AllAssigned-SameUse k k' safe same p j busy =
    let (o, e) = safe p j (sym (same p j).0 ∙ busy) in (o, (same p j).1 ∙ e)

-- The descriptors of `k'` are those of `k` but for one that is free.
freed-AllAssigned :
    (k : Kernel) (pid fd : ℕ)
    → AllAssigned k
    → AllAssigned (with_fd k pid fd (record (fd_of k pid fd) { in_use = false }))
freed-AllAssigned k pid fd safe p j busy =
    let k' = with_fd k pid fd (record (fd_of k pid fd) { in_use = false }) in
    let cases : ((fd_of k' p j).in_use ≡ false) ⊎ (fd_of k' p j ≡ fd_of k p j) = ground arith in
    elim cases [
      | inl free ↦ absurd (ground (arith, free, busy))
      | inr same ↦
          let (o, e) = safe p j (ap (λ (d : FileDesc). d.in_use) (sym same) ∙ busy) in
          (o, ap (λ (d : FileDesc). d.operations) same ∙ e)
    ]

close_fd-AllAssigned :
    (k : Kernel) (o : Option Ops) → AllAssigned k → Leaves AllAssigned (close_fd k o)
unfolding close_fd
close_fd-AllAssigned k none safe = record {}
close_fd-AllAssigned k (some std_in) safe = safe
close_fd-AllAssigned k (some std_out) safe = safe
close_fd-AllAssigned k (some rtc_ops) safe = safe
close_fd-AllAssigned k (some dir_ops) safe = safe
close_fd-AllAssigned k (some file_ops) safe = safe

-- A result that is mapped.
pub Leaves-status :
    (P : Kernel → Type 0) (x : Option (Kernel × ℤ)) (h : ℤ → ℤ)
    → Leaves P x
    → Leaves P (x >>= λ a. some (a.0, h a.1))
Leaves-status P none h p = record {}
Leaves-status P (some (k, r)) h p = p

close-AllAssigned : (k : Kernel) (fd : ℤ) → AllAssigned k → Leaves AllAssigned (close k fd)
unfolding close
close-AllAssigned k (negsuc d) safe = safe
close-AllAssigned k (pos fd) safe =
    let d = fd_of k (current_pid k) fd in
    let freed = with_fd k (current_pid k) fd (record d { in_use = false }) in
    let status = λ (z : ℤ). if is_zero z then pos 0 else fail in
    Leaves-if AllAssigned (ltb fd 2 || ltb 7 fd || not d.in_use) (some (k, fail))
      (close_fd freed d.operations >>= λ a. some (a.0, status a.1)) safe
      (Leaves-status AllAssigned (close_fd freed d.operations) status
        (close_fd-AllAssigned freed d.operations (freed-AllAssigned k (current_pid k) fd safe)))

fds_with-cases :
    (k : Kernel) (pid i : ℕ) (d : FileDesc) (p j : ℕ)
    → (fds_with k pid i d p j ≡ d) ⊎ (fds_with k pid i d p j ≡ fd_of k p j)
fds_with-cases k pid i d p j = ground arith

open_as-AllAssigned :
    (f : Frame) (k : Kernel) (i : ℕ)
    → IsKind (file_type (memory_of k) f.dentry)
    → AllAssigned k
    → let d = record (fd_of k (current_pid k) i) { in_use = true; file_pos = 0 } in
      AllAssigned
        (open_as f
          (with_fd k (current_pid k) i d)
          i
          (file_type (memory_of k) f.dentry)
          (inode_num (memory_of k) f.dentry)).0
open_as-AllAssigned f k i kind safe p j busy =
    let (result, same, tables) = open_as-opened f k i p j kind in
    elim (fds_with-cases k (current_pid k) i (opened f k) p j) [
      | inl new ↦ (
        ops_for (file_type (memory_of k) f.dentry),
        ap (λ (d : FileDesc). d.operations) (same ∙ new),
      )
      | inr old ↦
          let kept = same ∙ old in
          let (o, e) = safe p j (ap (λ (d : FileDesc). d.in_use) (sym kept) ∙ busy) in
          (o, ap (λ (d : FileDesc). d.operations) kept ∙ e)
    ]

open_found-AllAssigned :
    (f : Frame) (k : Kernel) (o : Option ℕ)
    → free_fd (pcb_of k (current_pid k)).fds ≡ o
    → IsKind (file_type (memory_of k) f.dentry)
    → AllAssigned k
    → AllAssigned (open_entry f k).0
unfolding open_entry
open_found-AllAssigned f k none found kind safe = rw (open_entry, found) safe
open_found-AllAssigned f k (some i) found kind safe =
    rw (open_entry, found) (open_as-AllAssigned f k i kind safe)

open_entry-AllAssigned :
    (f : Frame) (k : Kernel)
    → IsKind (file_type (memory_of k) f.dentry)
    → AllAssigned k
    → AllAssigned (open_entry f k).0
open_entry-AllAssigned f k =
    open_found-AllAssigned f k (free_fd (pcb_of k (current_pid k)).fds) refl

open_file-AllAssigned :
    (f : Frame) (k : Kernel) (name : ℕ) (m : Memory) (status : ℤ)
    → read_dentry_by_name k.fs (memory_of k) name f.dentry ≡ some (m, status)
    → IsKind (file_type m f.dentry)
    → AllAssigned k
    → Leaves AllAssigned (open_file f k name)
unfolding open_file
open_file-AllAssigned f k name m status found kind safe = rw found (
    same_pair AllAssigned (is_fail status) (with_memory k m, fail) (open_entry f (with_memory k m))
      safe (open_entry-AllAssigned f (with_memory k m) kind safe))

-- A call that comes back. `open` is called where the directory entry that it works on is of a known
-- type.
pub data Step : Kernel → Kernel → Type 0 where
  opens :
      {k k' : Kernel} (f : Frame) (name : ℕ) (m : Memory) (status r : ℤ)
      → read_dentry_by_name k.fs (memory_of k) name f.dentry ≡ some (m, status)
      → IsKind (file_type m f.dentry)
      → open_file f k name ≡ some (k', r)
      → Step k k'
  reads :
      {k k' : Kernel} (f : Frame) (fd : ℤ) (buf : ℕ) (n r : ℤ)
      → read f k fd buf n ≡ some (k', r)
      → Step k k'
  writes :
      {k k' : Kernel} (f : Frame) (fd : ℤ) (buf : ℕ) (n r : ℤ)
      → write f k fd buf n ≡ some (k', r)
      → Step k k'
  closes : {k k' : Kernel} (fd r : ℤ) → close k fd ≡ some (k', r) → Step k k'

-- The states that calls lead to, one after the other.
pub data Reachable (k : Kernel) : Kernel → Type 0 where
  here : Reachable k k
  after : {a b : Kernel} → Reachable k a → Step a b → Reachable k b

Step-AllAssigned : (k k' : Kernel) → Step k k' → AllAssigned k → AllAssigned k'
Step-AllAssigned k k' (opens f name m status r found kind e) safe =
    subst (Leaves AllAssigned) e (open_file-AllAssigned f k name m status found kind safe)
Step-AllAssigned k k' (reads f fd buf n r e) safe =
    AllAssigned-SameUse k k' safe (subst (Leaves (SameUse k)) e (read-SameUse f k fd buf n))
Step-AllAssigned k k' (writes f fd buf n r e) safe =
    AllAssigned-SameUse k k' safe (subst (Leaves (SameUse k)) e (write-SameUse f k fd buf n))
Step-AllAssigned k k' (closes fd r e) safe =
    subst (Leaves AllAssigned) e (close-AllAssigned k fd safe)

-- From a state in which each descriptor that is in use, of every process, has its operations, every
-- sequence of calls of `open`, `read`, `write` and `close` that come back, by any processes' frames and
-- with `open` called on entries of known types only, leads to a state in which that holds again: no
-- call goes through a pointer that was never assigned.
pub Reachable-AllAssigned : (k k' : Kernel) → Reachable k k' → AllAssigned k → AllAssigned k'
Reachable-AllAssigned k k' here safe = safe
Reachable-AllAssigned k k' (after {a = a} way step) safe =
    Step-AllAssigned a k' step (Reachable-AllAssigned k a way safe)
