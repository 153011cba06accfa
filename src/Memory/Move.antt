-- ===== src/Memory/Move.antt =====
-- `memmove` of student-distrib/lib.c, one `rep movsb` in assembly, forwards or backwards.
use linux_kernel_os.Prelude.{
  ltb, leb, ◌==◌, if◌then◌else◌, Bool-cases, ℕ, zero, suc, ◌+◌, ◌-◌, ◌≤◌, ◌<◌, ◌≡◌, inl, inr, ◌&&◌,
  arith,
}
use linux_kernel_os.Memory.{Memory, store}
use linux_kernel_os.Memory.Copy.{memcpy_loop}

-- The bytes below index `n`, the last one first.
pub move_back_loop : ℕ → Memory → ℕ → ℕ → Memory
move_back_loop zero m dest src = m
move_back_loop (suc n) m dest src = move_back_loop n (store m (dest + n) (m (src + n))) dest src

-- The direction flag stays set after a move backwards; the routines that need it clear do `cld`.
unfoldable pub memmove : Memory → ℕ → ℕ → ℕ → Memory
unfolding move_back_loop
memmove m dest src n =
    if leb dest src then memcpy_loop n m dest src else move_back_loop n m dest src

-- The memory with the `n` bytes from `src` on at `dest`, as they were before.
abbrev pub moved : Memory → ℕ → ℕ → ℕ → Memory
moved m dest src n a = if leb dest a && ltb a (dest + n) then m (src + a - dest) else m a

memcpy_loop-moved :
    (n : ℕ) (m : Memory) (dest src a : ℕ)
    → dest ≤ src
    → memcpy_loop n m dest src a ≡ moved m dest src n a
unfolding memcpy_loop
memcpy_loop-moved zero m dest src a le = ground arith
memcpy_loop-moved (suc n) m dest src a le =
    let rest = memcpy_loop-moved n (store m dest (m src)) (dest + 1) (src + 1) a (omega arith) in
    let from : src + 1 + a - (dest + 1) ≡ src + a - dest = omega arith in
    elim (Bool-cases (dest == a)) [
      | inl first ↦ ground (arith, rest, first)
      | inr other ↦ ground (arith, rest, from, other)
    ]

move_back_loop-moved :
    (n : ℕ) (m : Memory) (dest src a : ℕ)
    → src < dest
    → move_back_loop n m dest src a ≡ moved m dest src n a
unfolding move_back_loop
move_back_loop-moved zero m dest src a lt = ground arith
move_back_loop-moved (suc n) m dest src a lt =
    let rest = move_back_loop-moved n (store m (dest + n) (m (src + n))) dest src a lt in
    elim (Bool-cases (dest + n == a)) [
      | inl last ↦
          let at : src + a - dest ≡ src + n = ground (arith, last) in ground (arith, rest, last, at)
      | inr other ↦ ground (arith, rest, other)
    ]

-- `memmove` puts the bytes of the source at the destination as they were before the call, also where
-- the two areas overlap, and changes nothing else.
pub memmove-moved : (m : Memory) (dest src n a : ℕ) → memmove m dest src n a ≡ moved m dest src n a
unfolding memmove
memmove-moved m dest src n a = elim (Bool-cases (leb dest src)) [
  | inl forwards ↦ rw forwards (memcpy_loop-moved n m dest src a (ground (arith, forwards)))
  | inr back ↦ rw back (move_back_loop-moved n m dest src a (ground (arith, back)))
]
