-- ===== src/Run/Return.antt =====
-- `execute`, a program that works with files, and `halt`: what is as it was before.
use linux_kernel_os.Prelude.{ℕ, ◌+◌, ◌<◌, ◌≡◌, refl, sym, ap, ◌∙◌, true, false, some, Bool, arith}
use linux_kernel_os.Prelude.Int.{ℤ, pos, negsuc, plus, minus, lt_int}
use linux_kernel_os.Process.{max_pcb, Pcb}
use linux_kernel_os.Kernel.{Kernel, Frame, current_pid, pcb_of, fd_of}
use linux_kernel_os.Paging.{Paging, create_page_dir_entry}
use linux_kernel_os.Paging.Isolation.{program_page}
use linux_kernel_os.Paging.Translate.{translate}
use linux_kernel_os.Files.Control.{blank_fds, Reachable-SameControl}
use linux_kernel_os.Files.Reachable.{AllAssigned, Reachable, Reachable-AllAssigned}
use linux_kernel_os.Run.{resumed, page_of_process, image_offset, halt, leave_process}
use linux_kernel_os.Run.Create.{Started, program_start, program_at}
use linux_kernel_os.Run.Leave.{
  CanLeave, Restored, final_status, parent_paging, leave_process-Restored,
}

minus-plus : (z : ℤ) → minus (plus z 1) 1 ≡ z
minus-plus (pos n) = ground arith
minus-plus (negsuc n) = ground arith

lt_int-plus : (z : ℤ) → lt_int (pos 0) z ≡ true → lt_int (pos 1) (plus z 1) ≡ true
lt_int-plus (pos n) h = ground arith
lt_int-plus (negsuc n) h = ground arith

-- The tables of processes, seen by the parent `q`, are as before the start of the process.
pub record Back (k : Kernel) (q : ℕ) (f : Frame) (k' : Kernel) : Type 0 where
  pub is_current : k'.processes.current ≡ q
  pub same_active : (p : ℕ) → k'.processes.active p ≡ k.processes.active p
  pub same_top : (t : ℕ) → k'.processes.pid_in_terminal t ≡ k.processes.pid_in_terminal t
  pub same_count : (t : ℕ) → k'.processes.per_terminal t ≡ k.processes.per_terminal t
  pub stack : k'.tss_esp0 ≡ f.esp
  pub mapped :
      (i : ℕ)
      → i + image_offset < 0x400000
      → translate k'.paging true (program_start + i) ≡ some (program_page q + image_offset + i)

module _ (f g : Frame) (k started ended : Kernel) (pid inode n q status : ℕ)
    (st : Started f k pid inode n started)
    (top : k.processes.pid_in_terminal k.terminals.current ≡ pos q) (q_in : q < max_pcb)
    (free : k.processes.active pid ≡ false) (way : Reachable started ended) where
  block :
      (b : Pcb → ℕ)
      → ((p : Pcb) → b p ≡ b (blank_fds p (fd_of k 0 0)))
      → b (pcb_of ended pid) ≡ b (pcb_of started pid)
  block b blank =
      let same = (Reachable-SameControl started ended way).0 pid (fd_of k 0 0) in
      blank (pcb_of ended pid) ∙ ap b same ∙ sym (blank (pcb_of started pid))

  of_parent : (pcb_of ended pid).parent_id ≡ q
  of_parent = block (λ p. p.parent_id) (λ p. refl) ∙ st.parent ∙ ground (arith, top)

  vidmap_ended : (pcb_of ended pid).vidmap_flag ≡ false
  vidmap_ended =
      let same = (Reachable-SameControl started ended way).0 pid (fd_of k 0 0) in
      ap (λ (p : Pcb). p.vidmap_flag) same ∙ st.no_vidmap

  back : (k' : Kernel) → Restored ended pid k' → Back k q f k'
  back k' r =
      let terminal = block (λ p. p.terminal) (λ p. refl) ∙ st.on_terminal in
      let tables = (Reachable-SameControl started ended way).1 in
      let page : page_of_process q ≡ program_page q = omega (arith, q_in) in
      let unmapped : parent_paging ended.paging (pcb_of ended pid)
          ≡ create_page_dir_entry ended.paging (page_of_process (pcb_of ended pid).parent_id) =
        rw vidmap_ended refl in
      let pages =
        r.pages
        ∙ unmapped
        ∙ ap (λ (n : ℕ). create_page_dir_entry ended.paging (page_of_process n)) of_parent
        ∙ ap (create_page_dir_entry ended.paging) page in
      record {
        is_current = r.at_parent ∙ of_parent;
        same_active = λ p. ground (
          arith,
          ap (λ (a : ℕ → Bool). a p) r.inactive,
          ap (λ (a : ℕ → Bool). a p) tables.0,
          tables.1,
          st.is_current,
          ap (λ (a : ℕ → Bool). a p) st.now_active,
          free,
        );
        same_top = λ t. ground (
          arith,
          ap (λ (a : ℕ → ℤ). a t) r.top,
          ap (λ (a : ℕ → ℤ). a t) tables.3,
          ap (λ (a : ℕ → ℤ). a t) st.now_top,
          terminal,
          of_parent,
          top,
        );
        same_count = λ t. ground (
          arith,
          ap (λ (a : ℕ → ℤ). a t) r.count,
          ap (λ (a : ℕ → ℤ). a t) tables.2,
          ap (λ (a : ℕ → ℤ). a t) st.counted,
          terminal,
          minus-plus (k.processes.per_terminal t),
        );
        stack = r.stack ∙ block (λ p. p.parent_esp) (λ p. refl) ∙ st.back_esp;
        mapped = λ i h.
            ap (λ (p : Paging). translate p true (program_start + i)) pages
            ∙ program_at ended.paging q i h;
      }

  leave_process-Back :
      AllAssigned started
      → CanLeave g ended
      → (k1 : Kernel) × (leave_process g ended pid status
          ≡ some (k1, resumed (final_status status) f.esp f.ebp))
        × Back k q f k1
  leave_process-Back safe can =
      let (k1, run, r) =
        leave_process-Restored g ended pid status can
          (Reachable-AllAssigned started ended way safe) in
      let esp = block (λ p. p.parent_esp) (λ p. refl) ∙ st.back_esp in
      let ebp = block (λ p. p.parent_ebp) (λ p. refl) ∙ st.back_ebp in
      (k1, run ∙ (λ i. some (k1, resumed (final_status status) (esp i) (ebp i))), back k1 r)

  halt-leave_process :
      (h : Frame)
      → lt_int (pos 0) (k.processes.per_terminal k.terminals.current) ≡ true
      → halt g h ended status ≡ leave_process g ended pid status
  unfolding halt
  halt-leave_process h some_process =
      let tables = (Reachable-SameControl started ended way).1 in
      let self : current_pid ended ≡ pid = tables.1 ∙ st.is_current in
      let terminal = block (λ p. p.terminal) (λ p. refl) ∙ st.on_terminal in
      let t = k.terminals.current in
      let count : ended.processes.per_terminal t ≡ plus (k.processes.per_terminal t) 1 =
        ap (λ (a : ℕ → ℤ). a t) tables.2 ∙ ap (λ (a : ℕ → ℤ). a t) st.counted ∙ ground arith in
      let more : lt_int (pos 1) (ended.processes.per_terminal t) ≡ true =
        rw count (lt_int-plus (k.processes.per_terminal t) some_process) in
      rw (self, terminal, more) refl

  -- `execute` has started a program, as a process that was not active, from one of the six
  -- processes, at the top of its terminal, which has a count of at least one; in the state that it
  -- left, each descriptor in use, of every process, has its operations. Whatever calls of `open`,
  -- `read`, `write` and `close` that come back have been made since (`open` on entries of known
  -- types only), when the program ends by `halt`, and its messages can be printed: the `execute`
  -- that started it goes on with its own stack and base pointers and the status, 256 for that of an
  -- exception; the process at the top before is the current one, with its page mapped; and the
  -- tables of processes are as they were before the start.
  pub halt-Back :
      (h : Frame)
      → lt_int (pos 0) (k.processes.per_terminal k.terminals.current) ≡ true
      → AllAssigned started
      → CanLeave g ended
      → (k1 : Kernel) × (halt g h ended status
          ≡ some (k1, resumed (final_status status) f.esp f.ebp))
        × Back k q f k1
  halt-Back h some_process safe can =
      let (k1, run, b) = leave_process-Back safe can in
      (k1, halt-leave_process h some_process ∙ run, b)
