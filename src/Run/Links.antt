-- ===== src/Run/Links.antt =====
-- The block of a new process, and the links that `execute` gives it.
use linux_kernel_os.Prelude.Int.{ℤ, pos, negsuc, plus}
use linux_kernel_os.Run.{link_parent}
use linux_kernel_os.Kernel.{Frame}
use linux_kernel_os.Process.{max_fd, Ops, std_in, std_out, Processes, update, init_fd, init_pcb}
use linux_kernel_os.Prelude.{
  ltb, Bool-cases, ◌==◌, true, ℕ, ◌<◌, ◌≡◌, refl, ◌≢◌, ◌⊎◌, inl, inr, some, false, arith,
}

-- The process that is to be the parent of a new process `pid` on a terminal: the one at the top of
-- it, or `pid` itself.
abbrev pub parent_on : Processes → ℕ → ℕ → ℕ
parent_on s terminal pid = elim (s.pid_in_terminal terminal) [ pos p ↦ p | negsuc n ↦ pid ]

Int-cases : (z : ℤ) → ((p : ℕ) × (z ≡ pos p)) ⊎ ((n : ℕ) × (z ≡ negsuc n))
Int-cases (pos p) = inl (p, refl)
Int-cases (negsuc n) = inr (n, refl)

-- When the block of each process carries its own id, a new process is the current one and the top of
-- its terminal, whose count goes up by one. Its parent is the process that was at the top of the
-- terminal, or itself where there was none, and it keeps the stack and base pointers of the call. Its
-- descriptors 0 and 1 are in use, with the operations of the terminal, and those from 2 to 7 are free.
pub link_parent-init_pcb :
    (f : Frame) (s : Processes) (pid terminal j : ℕ)
    → j < max_fd
    → ((p : ℕ) → (s.pcbs p).process_id ≡ p)
    → let s' = link_parent f pid (init_pcb s pid terminal) in
      let new = s'.pcbs pid in
      (s'.current ≡ pid)
      × (s'.pid_in_terminal terminal ≡ pos pid)
      × (s'.per_terminal terminal ≡ plus (s.per_terminal terminal) 1)
      × (new.process_id ≡ pid)
      × (new.terminal ≡ terminal)
      × (new.parent_id ≡ parent_on s terminal pid)
      × (new.parent_esp ≡ f.esp)
      × (new.parent_ebp ≡ f.ebp)
      × ((new.fds 0).operations ≡ some std_in)
      × ((new.fds 1).operations ≡ some std_out)
      × ((new.fds j).in_use ≡ ltb j 2)
unfolding link_parent init_pcb init_fd
link_parent-init_pcb f s pid terminal j small own = (
  refl,
  ground arith,
  ground arith,
  ground arith,
  ground arith,
  elim (Int-cases (s.pid_in_terminal terminal)) [
    | inl (p, e) ↦ ground (arith, own p, own pid, e)
    | inr (n, e) ↦ ground (arith, e)
  ],
  ground arith,
  ground arith,
  ground arith,
  ground arith,
  ground arith,
)

-- The new process changes the block of no other.
pub link_parent_others :
    (f : Frame) (s : Processes) (pid terminal p : ℕ)
    → p ≢ pid
    → (link_parent f pid (init_pcb s pid terminal)).pcbs p ≡ s.pcbs p
unfolding link_parent init_pcb
link_parent_others f s pid terminal p other = ground arith

-- The tables with the new process.
pub link_parent_tables :
    (f : Frame) (s : Processes) (pid terminal : ℕ)
    → let s' = link_parent f pid (init_pcb s pid terminal) in
      (s'.active ≡ s.active)
      × (s'.pid_in_terminal ≡ update s.pid_in_terminal terminal (pos pid))
      × (s'.per_terminal ≡ update s.per_terminal terminal (plus (s.per_terminal terminal) 1))
unfolding link_parent init_pcb
link_parent_tables f s pid terminal =
    let self : (pid == pid) ≡ true = ground arith in (refl, rw self refl, refl)

-- The new process does not use the video memory.
pub link_parent_vidmap :
    (f : Frame) (s : Processes) (pid terminal : ℕ)
    → ((link_parent f pid (init_pcb s pid terminal)).pcbs pid).vidmap_flag ≡ false
unfolding link_parent init_pcb
link_parent_vidmap f s pid terminal = ground arith

-- Where each descriptor that is in use has its operations, that is still so.
pub link_parent-AllAssigned :
    (f : Frame) (s : Processes) (pid terminal : ℕ)
    → ((p j : ℕ)
        → ((s.pcbs p).fds j).in_use ≡ true
        → (o : Ops) × (((s.pcbs p).fds j).operations ≡ some o))
    → (p j : ℕ) → (((link_parent f pid (init_pcb s pid terminal)).pcbs p).fds j).in_use ≡ true
    → (o : Ops) × ((((link_parent f pid (init_pcb s pid terminal)).pcbs p).fds j).operations
        ≡ some o)
unfolding link_parent init_pcb init_fd
link_parent-AllAssigned f s pid terminal safe p j busy = elim (Bool-cases (pid == p)) [
  | inl self ↦ elim (Bool-cases (ltb j max_fd)) [
    | inl first ↦ elim (Bool-cases (j == 0)) [
      | inl zero ↦ (std_in, ground (arith, self, first, zero))
      | inr more ↦ (std_out, ground (arith, self, first, more, busy))
    ]
    | inr behind ↦
        let (o, e) = safe pid j (ground (arith, self, behind, busy)) in
        (o, ground (arith, self, behind, e))
  ]
  | inr other ↦ let (o, e) = safe p j (ground (arith, other, busy)) in (o, ground (arith, other, e))
]
