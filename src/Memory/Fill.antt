-- ===== src/Memory/Fill.antt =====
-- `memset`, `memset_word` and `memset_dword` of student-distrib/lib.c, loops in assembly.
use linux_kernel_os.Prelude.{
  ◌==◌, if◌then◌else◌, Bool-cases, replicate, ℕ, zero, suc, ◌+◌, ◌*◌, ◌/◌, ◌%◌, ◌^◌, ◌≡◌, refl, sym,
  ap, ◌∙◌, inl, inr, arith,
}
use linux_kernel_os.Memory.{Memory, store}
use linux_kernel_os.Memory.Write.{write_bytes}

-- A byte at a time.
pub memset_loop : ℕ → Memory → ℕ → ℕ → Memory
memset_loop zero m s c = m
memset_loop (suc n) m s c = memset_loop n (store m s c) (s + 1) c

-- A dword with the byte `c` four times.
abbrev set_dword : Memory → ℕ → ℕ → Memory
set_dword m s c = store (store (store (store m s c) (s + 1) c) (s + 2) c) (s + 3) c

-- `rep stosl`, with the dwords that are left.
pub memset_dwords : ℕ → Memory → ℕ → ℕ → Memory
memset_dwords zero m s c = m
memset_dwords (suc k) m s c = memset_dwords k (set_dword m s c) (s + 4) c

-- The part from `.memset_aligned` on.
pub memset_aligned : ℕ → Memory → ℕ → ℕ → Memory
unfolding memset_dwords memset_loop
memset_aligned n m s c = memset_loop (n % 4) (memset_dwords (n / 4) m s c) (s + n / 4 * 4) c

-- The part from `.memset_top` on, with `n` bytes left.
pub memset_top : ℕ → Memory → ℕ → ℕ → Memory
memset_top zero m s c = m
memset_top (suc n) m s c =
    let rest = memset_top n (store m s c) (s + 1) c in
    if s % 4 == 0 then memset_aligned (suc n) m s c else rest

-- `c` is the word that is passed, of which the low byte counts.
unfoldable pub memset : Memory → ℕ → ℕ → ℕ → Memory
unfolding memset_top memset_aligned
memset m s c n = memset_top n m s (c % 256)

-- `rep stosw`: the low 16 bits of `c`, `n` times.
unfoldable pub memset_word : ℕ → Memory → ℕ → ℕ → Memory
memset_word zero m s c = m
memset_word (suc n) m s c =
    memset_word n (store (store m s (c % 256)) (s + 1) (c / 2 ^ 8 % 256)) (s + 2) c

-- `rep stosl`: the 32 bits of `c`, `n` times.
unfoldable pub memset_dword : ℕ → Memory → ℕ → ℕ → Memory
memset_dword zero m s c = m
memset_dword (suc n) m s c =
    memset_dword n
      (store
        (store (store (store m s (c % 256)) (s + 1) (c / 2 ^ 8 % 256)) (s + 2) (c / 2 ^ 16 % 256))
        (s + 3) (c / 2 ^ 24 % 256))
      (s + 4) c

memset_loop-add :
    (a b : ℕ) (m : Memory) (s c : ℕ)
    → memset_loop (a + b) m s c ≡ memset_loop b (memset_loop a m s c) (s + a) c
unfolding memset_loop
memset_loop-add zero b m s c =
    let none_yet : zero + b ≡ b = omega arith in
    let to : s + 0 ≡ s = omega arith in rw (none_yet, to) refl
memset_loop-add (suc a) b m s c =
    let more : suc a + b ≡ suc (a + b) = omega arith in
    let to : s + 1 + a ≡ s + suc a = omega arith in
    rw more (memset_loop-add a b (store m s c) (s + 1) c ∙ rw to refl)

memset_four :
    (n : ℕ) (m : Memory) (s c : ℕ)
    → memset_loop (n + 4) m s c ≡ memset_loop n (set_dword m s c) (s + 4) c
unfolding memset_loop
memset_four n m s c =
    let four : n + 4 ≡ suc (suc (suc (suc n))) = omega arith in rw four (ground arith)

memset_dwords-loop :
    (k : ℕ) (m : Memory) (s c : ℕ) → memset_dwords k m s c ≡ memset_loop (k * 4) m s c
unfolding memset_dwords
memset_dwords-loop zero m s c = unfold memset_loop in refl
memset_dwords-loop (suc k) m s c =
    let more : suc k * 4 ≡ k * 4 + 4 = omega arith in
    memset_dwords-loop k (set_dword m s c) (s + 4) c ∙ rw more (sym (memset_four (k * 4) m s c))

memset_aligned-loop : (n : ℕ) (m : Memory) (s c : ℕ) → memset_aligned n m s c ≡ memset_loop n m s c
unfolding memset_aligned
memset_aligned-loop n m s c =
    let split : n ≡ n / 4 * 4 + n % 4 = omega arith in
    let whole = ap (λ (q : ℕ). memset_loop q m s c) split in
    rw (memset_dwords-loop (n / 4) m s c)
      (sym (memset_loop-add (n / 4 * 4) (n % 4) m s c) ∙ sym whole)

memset_loop-suc :
    (n : ℕ) (m : Memory) (s c : ℕ)
    → memset_loop n (store m s c) (s + 1) c ≡ memset_loop (suc n) m s c
unfolding memset_loop
memset_loop-suc n m s c = refl

memset_top-loop : (n : ℕ) (m : Memory) (s c : ℕ) → memset_top n m s c ≡ memset_loop n m s c
unfolding memset_top
memset_top-loop zero m s c = unfold memset_loop in refl
memset_top-loop (suc n) m s c = elim (Bool-cases (s % 4 == 0)) [
  | inl aligned ↦ rw aligned (memset_aligned-loop (suc n) m s c)
  | inr odd ↦ rw odd (memset_top-loop n (store m s c) (s + 1) c ∙ memset_loop-suc n m s c)
]

memset_loop-write :
    (n : ℕ) (m : Memory) (s c : ℕ) → memset_loop n m s c ≡ write_bytes m s (replicate n c)
unfolding memset_loop
memset_loop-write zero m s c = refl
memset_loop-write (suc n) m s c = memset_loop-write n (store m s c) (s + 1) c

-- `memset` writes the low byte of `c` to each of the `n` bytes from `s` on, and nothing else,
-- whatever the alignment.
pub memset-write :
    (m : Memory) (s c n : ℕ) → memset m s c n ≡ write_bytes m s (replicate n (c % 256))
unfolding memset
memset-write m s c n = memset_top-loop n m s (c % 256) ∙ memset_loop-write n m s (c % 256)
