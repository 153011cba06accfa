-- ===== src/Process/Slots.antt =====
-- Which process id a new process gets.
use linux_kernel_os.Process.{max_pcb, Processes, unused_loop, get_unused_process_id}
use linux_kernel_os.Prelude.{
  ◌==◌, Bool-cases, ℕ, zero, suc, ◌+◌, ◌≤◌, ◌<◌, ◌≡◌, refl, inl, inr, Bool, true, false, none, some,
  arith,
}

unused_loop-lowest :
    (r : ℕ) (active : ℕ → Bool) (i j : ℕ)
    → i ≤ j
    → j < i + r
    → active j ≡ false
    → ((l : ℕ) → i ≤ l → l < j → active l ≡ true)
    → unused_loop r active i ≡ some j
unfolding unused_loop
unused_loop-lowest zero active i j lo hi free below = absurd (omega arith)
unused_loop-lowest (suc r) active i j lo hi free below = elim (Bool-cases (i == j)) [
  | inl here ↦ ground arith
  | inr further ↦
      let next : i < j = ground arith in
      let rest =
        unused_loop-lowest r active (i + 1) j (omega arith) (omega arith) free
          (λ l from under. below l (omega arith) under) in
      ground (arith, rest, below i)
]

unused_loop-none :
    (r : ℕ) (active : ℕ → Bool) (i : ℕ)
    → ((l : ℕ) → i ≤ l → l < i + r → active l ≡ true)
    → unused_loop r active i ≡ none
unfolding unused_loop
unused_loop-none zero active i busy = refl
unused_loop-none (suc r) active i busy =
    let rest =
      unused_loop-none r active (i + 1) (λ l from under. busy l (omega arith) (omega arith)) in
    ground (arith, rest, busy i)

-- A new process gets the lowest of the six process ids that is not active.
pub get_unused_process_id-lowest :
    (s : Processes) (pid : ℕ)
    → pid < max_pcb
    → s.active pid ≡ false
    → ((l : ℕ) → l < pid → s.active l ≡ true)
    → get_unused_process_id s ≡ some pid
unfolding get_unused_process_id
get_unused_process_id-lowest s pid h free below =
    unused_loop-lowest 6 s.active 0 pid (omega arith) (omega arith) free (λ l lo. below l)

-- With all six process ids active there is none.
pub get_unused_process_id-none :
    (s : Processes) → ((l : ℕ) → l < max_pcb → s.active l ≡ true) → get_unused_process_id s ≡ none
unfolding get_unused_process_id
get_unused_process_id-none s busy = unused_loop-none 6 s.active 0 (λ l lo hi. busy l (omega arith))
