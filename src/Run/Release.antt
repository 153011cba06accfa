-- ===== src/Run/Release.antt =====
-- The loop of `halt` over the descriptors of the process that ends, and what `execute` refuses.
use linux_kernel_os.Prelude.Int.{ℤ, pos, fail}
use linux_kernel_os.Memory.{null}
use linux_kernel_os.Process.{max_fd, Ops}
use linux_kernel_os.Run.{returned, execute, close_loop}
use linux_kernel_os.Kernel.{Kernel, Frame, memory_of, current_pid, fd_of, with_fd, SameTables}
use linux_kernel_os.Files.{close}
use linux_kernel_os.Files.Reachable.{AllAssigned, Reachable, Reachable-AllAssigned}
use linux_kernel_os.Files.Close.{close-freed, close_refused}
use linux_kernel_os.Strings.{IsString}
use linux_kernel_os.Strings.Laws.{strlen-IsString}
use linux_kernel_os.Prelude.{
  ◌>>=◌, ltb, ◌==◌, if◌then◌else◌, Bool-cases, length, ℕ, zero, suc, ◌+◌, ◌^◌, ◌≤◌, ◌<◌, ◌≡◌, refl,
  sym, ◌∙◌, ◌⊎◌, inl, inr, true, false, ◌&&◌, some, List, arith,
}

-- The null pointer, and a command of more than 127 characters and fewer than 2 ^ 32, are refused,
-- and nothing changes.
pub execute_refused :
    (f : Frame) (k : Kernel) (command : ℕ) (bs : List ℕ)
    → IsString (memory_of k) command bs
    → (command ≡ null) ⊎ (127 < length bs)
    → length bs < 2 ^ 32
    → execute f k command ≡ some (k, returned fail)
unfolding execute
execute_refused f k command bs is bad fits =
    let size = strlen-IsString (memory_of k) command bs is fits in rw (execute, size) (ground arith)

-- Each descriptor of a process that is in use has its operations.
abbrev pub IsAssigned : Kernel → ℕ → Type 0
IsAssigned k pid =
    (j : ℕ) → (fd_of k pid j).in_use ≡ true → (o : Ops) × ((fd_of k pid j).operations ≡ some o)

-- Clearing descriptors keeps that.
IsAssigned-clear :
    (k k' : Kernel) (pid : ℕ)
    → IsAssigned k pid
    → ((j : ℕ)
        → ((fd_of k' pid j).in_use ≡ false)
          ⊎ (((fd_of k' pid j).in_use ≡ (fd_of k pid j).in_use)
              × ((fd_of k' pid j).operations ≡ (fd_of k pid j).operations)))
    → IsAssigned k' pid
IsAssigned-clear k k' pid assigned same j busy = elim (same j) [
  | inl free ↦ absurd (ground (arith, free, busy))
  | inr kept ↦ let (o, e) = assigned j (sym kept.0 ∙ busy) in (o, kept.1 ∙ e)
]

-- What one round of the loop keeps, in a state `k'` after `k`: descriptors that are free stay so, and
-- the others keep their operations.
abbrev pub Kept : Kernel → Kernel → Type 0
Kept k k' =
    ((p j : ℕ)
      → ((fd_of k' p j).in_use ≡ false)
        ⊎ (((fd_of k' p j).in_use ≡ (fd_of k p j).in_use)
            × ((fd_of k' p j).operations ≡ (fd_of k p j).operations)))
    × SameTables k.processes k'.processes

close_total :
    (k : Kernel) (i : ℕ)
    → IsAssigned k (current_pid k)
    → 1 < i
    → i < max_fd
    → (k' : Kernel) × (z : ℤ) × (close k (pos i) ≡ some (k', z)) × Kept k k'
close_total k i assigned lo hi = elim (Bool-cases (fd_of k (current_pid k) i).in_use) [
  | inl busy ↦
      let (o, e) = assigned i busy in
      let (k', done, fds, tables) = close-freed k i o (omega arith) (omega arith) busy e in
      let cases : (p j : ℕ)
          → ((fd_of k' p j).in_use ≡ false)
            ⊎ (((fd_of k' p j).in_use ≡ (fd_of k p j).in_use)
                × ((fd_of k' p j).operations ≡ (fd_of k p j).operations)) =
        λ p j. ground (arith, fds p j) in
      (k', pos 0, done, (cases, tables))
  | inr free ↦ (
    k,
    fail,
    close_refused k i (inr (inr free)),
    (λ p j. inr (refl, refl), (refl, refl, refl, refl)),
  )
]

Kept-trans : (k k' k'' : Kernel) → Kept k k' → Kept k' k'' → Kept k k''
Kept-trans k k' k'' (fds, tables) (fds', tables') =
    (λ p j. ground (arith, fds p j, fds' p j), ground (arith, tables, tables'))

-- One round of the loop, at the descriptor `i` of the process `pid`.
round_total :
    (k : Kernel) (pid i : ℕ)
    → IsAssigned k (current_pid k)
    → i < max_fd
    → (k1 : Kernel) × ((if (fd_of k pid i).in_use && ltb 1 i
          then (close k (pos i) >>= λ r. some r.0)
          else some k)
        ≡ some k1)
      × Kept k (with_fd k1 pid i (record (fd_of k1 pid i) { in_use = false }))
round_total k pid i assigned hi = elim (Bool-cases ((fd_of k pid i).in_use && ltb 1 i)) [
  | inl both ↦
      let (k1, z, done, (fds, tables)) = close_total k i assigned (ground arith) hi in
      (k1, ground (arith, both, done), (λ p j. ground (arith, fds p j), tables))
  | inr skip ↦ (k, rw skip refl, (λ p j. ground arith, (refl, refl, refl, refl)))
]

pub close_loop_total :
    (r : ℕ) (k : Kernel) (pid i : ℕ)
    → IsAssigned k (current_pid k)
    → i + r ≤ max_fd
    → (k' : Kernel) × (close_loop r k pid i ≡ some k')
      × ((j : ℕ) → i ≤ j → j < i + r → (fd_of k' pid j).in_use ≡ false)
      × Kept k k'
unfolding close_loop
close_loop_total zero k pid i assigned fits = (
  k,
  refl,
  (λ j lo hi. absurd (omega arith)),
  (λ p j. inr (refl, refl), (refl, refl, refl, refl)),
)
close_loop_total (suc r) k pid i assigned fits =
    let (k1, first, kept) = round_total k pid i assigned (omega arith) in
    let k2 = with_fd k1 pid i (record (fd_of k1 pid i) { in_use = false }) in
    let still : IsAssigned k2 (current_pid k2) =
      rw kept.1.1
        (IsAssigned-clear k k2 (current_pid k) assigned (λ j. kept.0 (current_pid k) j)) in
    let (k', rest, freed, kept') = close_loop_total r k2 pid (i + 1) still (omega arith) in
    (
      k',
      rw (first) (rest),
      (λ j lo hi. elim (Bool-cases (i == j)) [
        | inl here ↦ ground (arith, here, kept'.0 pid j)
        | inr further ↦ freed j (ground (arith, further)) (omega arith)
      ]),
      Kept-trans k k2 k' kept kept',
    )

-- Where each descriptor of the current process that is in use has its operations, the loop of `halt`
-- comes to its end, with the eight descriptors of the process free. It leaves the tables of processes,
-- and each descriptor of any process either becomes free or keeps its use and its operations.
close_loop-freed :
    (k : Kernel) (pid j : ℕ)
    → IsAssigned k (current_pid k)
    → j < max_fd
    → (k' : Kernel) × (close_loop max_fd k pid 0 ≡ some k')
      × ((fd_of k' pid j).in_use ≡ false)
      × Kept k k'
close_loop-freed k pid j assigned hi =
    let (k', done, freed, kept) = close_loop_total 8 k pid 0 assigned (omega arith) in
    (k', done, freed j (omega arith) (omega arith), kept)

-- After any sequence of calls of `open`, `read`, `write` and `close` that come back, with `open` called
-- on entries of known types only, from a state in which each descriptor that is in use has its
-- operations: the loop of `halt` comes to its end for every process, and leaves its eight descriptors
-- free.
close_loop-Reachable :
    (k k' : Kernel) (pid j : ℕ)
    → AllAssigned k
    → Reachable k k'
    → j < max_fd
    → (k'' : Kernel) × (close_loop max_fd k' pid 0 ≡ some k'') × ((fd_of k'' pid j).in_use ≡ false)
close_loop-Reachable k k' pid j safe way hi =
    let safe' = Reachable-AllAssigned k k' way safe in
    let (k'', done, freed, kept) = close_loop-freed k' pid j (safe' (current_pid k')) hi in
    (k'', done, freed)
