-- ===== src/Files/Descriptors.antt =====
-- Which descriptor `open` gives out, and what it changes.
use linux_kernel_os.Prelude.Int.{pos, fail}
use linux_kernel_os.Kernel.{
  Kernel, Frame, memory_of, pcb_of, current_pid, fd_of, with_fd, SameTables,
}
use linux_kernel_os.Rtc.{rtc_open}
use linux_kernel_os.Fs.{
  file_rtc, file_dir, file_normal, file_type, inode_num, fs_open, fs_open_directory,
}
use linux_kernel_os.Files.{free_fd_loop, open_as, open_entry}
use linux_kernel_os.Process.{Ops, rtc_ops, dir_ops, file_ops, FileDesc}
use linux_kernel_os.Prelude.{
  ◌==◌, if◌then◌else◌, Bool-cases, ℕ, zero, suc, ◌+◌, ◌≤◌, ◌<◌, ◌≡◌, refl, ◌⊎◌, inl, inr, true,
  false, ◌&&◌, none, some, arith,
}

-- The search finds the lowest free descriptor.
free_fd_loop-lowest :
    (r : ℕ) (fds : ℕ → FileDesc) (i j : ℕ)
    → i ≤ j
    → j < i + r
    → (fds j).in_use ≡ false
    → ((l : ℕ) → i ≤ l → l < j → (fds l).in_use ≡ true)
    → free_fd_loop r fds i ≡ some j
unfolding free_fd_loop
free_fd_loop-lowest zero fds i j lo hi free below = absurd (omega arith)
free_fd_loop-lowest (suc r) fds i j lo hi free below = elim (Bool-cases (i == j)) [
  | inl here ↦ ground arith
  | inr further ↦
      let next : i < j = ground arith in
      let rest =
        free_fd_loop-lowest r fds (i + 1) j (omega arith) (omega arith) free
          (λ l from under. below l (omega arith) under) in
      ground (arith, rest, below i)
]

free_fd_loop-none :
    (r : ℕ) (fds : ℕ → FileDesc) (i : ℕ)
    → ((l : ℕ) → i ≤ l → l < i + r → (fds l).in_use ≡ true)
    → free_fd_loop r fds i ≡ none
unfolding free_fd_loop
free_fd_loop-none zero fds i busy = refl
free_fd_loop-none (suc r) fds i busy =
    let rest =
      free_fd_loop-none r fds (i + 1) (λ l from under. busy l (omega arith) (omega arith)) in
    ground (arith, rest, busy i)

-- The operations that `open` assigns for a type of file.
abbrev pub ops_for : ℕ → Ops
ops_for kind = if kind == file_rtc then rtc_ops else if kind == file_dir then dir_ops else file_ops

-- The types that the file system has.
abbrev pub IsKind : ℕ → Type 0
IsKind kind = (kind ≡ file_rtc) ⊎ (kind ≡ file_dir) ⊎ (kind ≡ file_normal)

-- The descriptor that `open` makes of a directory entry.
abbrev pub opened : Frame → Kernel → FileDesc
opened f k =
    let kind = file_type (memory_of k) f.dentry in
    record {
      operations = some (ops_for kind);
      inode = if kind == file_normal then inode_num (memory_of k) f.dentry else 0;
      file_pos = 0;
      in_use = true;
    }

-- All descriptors of all processes, with one of them replaced.
abbrev pub fds_with : Kernel → ℕ → ℕ → FileDesc → ℕ → ℕ → FileDesc
fds_with k pid fd d p j = if (pid == p) && (fd == j) then d else fd_of k p j

pub open_as-opened :
    (f : Frame) (k : Kernel) (i p j : ℕ)
    → let kind = file_type (memory_of k) f.dentry in
      let pid = current_pid k in
      let marked = with_fd k pid i (record (fd_of k pid i) { in_use = true; file_pos = 0 }) in
      let (k', result) = open_as f marked i kind (inode_num (memory_of k) f.dentry) in
      IsKind kind
      → (result ≡ pos i)
        × (fd_of k' p j ≡ fds_with k pid i (opened f k) p j)
        × SameTables k.processes k'.processes
unfolding open_as rtc_open fs_open fs_open_directory
open_as-opened f k i p j kind = ground arith

-- With a free descriptor of 2 to 7 and a directory entry of a known type, the part of `open` behind
-- the lookup returns the lowest free one, and sets it up for the file; it changes no other
-- descriptor, of this or any other process, and not the tables of processes.
pub open_entry-opened :
    (f : Frame) (k : Kernel) (i p j : ℕ)
    → IsKind (file_type (memory_of k) f.dentry)
    → 2 ≤ i
    → i ≤ 7
    → (fd_of k (current_pid k) i).in_use ≡ false
    → ((l : ℕ) → 2 ≤ l → l < i → (fd_of k (current_pid k) l).in_use ≡ true)
    → let (k', result) = open_entry f k in
      (result ≡ pos i)
      × (fd_of k' p j ≡ fds_with k (current_pid k) i (opened f k) p j)
      × SameTables k.processes k'.processes
unfolding open_entry
open_entry-opened f k i p j kind lo hi free below =
    let found =
      free_fd_loop-lowest 6 (pcb_of k (current_pid k)).fds 2 i lo (omega arith) free below in
    rw (open_entry, found) (open_as-opened f k i p j kind)

-- With the descriptors 2 to 7 in use the part of `open` behind the lookup fails and changes
-- nothing.
pub open_entry_full :
    (f : Frame) (k : Kernel)
    → ((l : ℕ) → 2 ≤ l → l ≤ 7 → (fd_of k (current_pid k) l).in_use ≡ true)
    → open_entry f k ≡ (k, fail)
unfolding open_entry
open_entry_full f k busy =
    let full =
      free_fd_loop-none 6 (pcb_of k (current_pid k)).fds 2
        (λ l from under. busy l from (omega arith)) in
    rw (open_entry, full) refl
