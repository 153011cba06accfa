-- ===== src/Memory/Copy.antt =====
-- `memcpy` of student-distrib/lib.c, a loop in assembly: bytes up to an aligned destination, then
-- dwords, then the bytes that are left.
use linux_kernel_os.Prelude.{
  ◌==◌, if◌then◌else◌, Bool-cases, length, get_or, ℕ, zero, suc, ◌+◌, ◌*◌, ◌/◌, ◌%◌, ◌<◌, ◌≡◌, refl,
  sym, ap, inl, inr, ◌∙◌, List, [], ◌∷◌, arith,
}
use linux_kernel_os.Memory.{Memory, store}
use linux_kernel_os.Memory.Write.{Apart, write_bytes, write_bytes_inside}

unfoldable pub memcpy_loop : ℕ → Memory → ℕ → ℕ → Memory
memcpy_loop zero m dest src = m
memcpy_loop (suc n) m dest src = memcpy_loop n (store m dest (m src)) (dest + 1) (src + 1)

-- A dword is read whole before it is written.
abbrev copy_dword : Memory → ℕ → ℕ → Memory
copy_dword m dest src =
    store (store (store (store m dest (m src)) (dest + 1) (m (src + 1))) (dest + 2) (m (src + 2)))
      (dest + 3) (m (src + 3))

-- `rep movsl`, with the dwords that are left.
pub memcpy_dwords : ℕ → Memory → ℕ → ℕ → Memory
memcpy_dwords zero m dest src = m
memcpy_dwords (suc k) m dest src = memcpy_dwords k (copy_dword m dest src) (dest + 4) (src + 4)

-- The part from `.memcpy_aligned` on.
pub memcpy_aligned : ℕ → Memory → ℕ → ℕ → Memory
unfolding memcpy_dwords memcpy_loop
memcpy_aligned n m dest src =
    memcpy_loop (n % 4) (memcpy_dwords (n / 4) m dest src) (dest + n / 4 * 4) (src + n / 4 * 4)

-- The part from `.memcpy_top` on, with `n` bytes left.
pub memcpy_top : ℕ → Memory → ℕ → ℕ → Memory
memcpy_top zero m dest src = m
memcpy_top (suc n) m dest src =
    let rest = memcpy_top n (store m dest (m src)) (dest + 1) (src + 1) in
    if dest % 4 == 0 then memcpy_aligned (suc n) m dest src else rest

unfoldable pub memcpy : Memory → ℕ → ℕ → ℕ → Memory
unfolding memcpy_top memcpy_aligned
memcpy m dest src n = memcpy_top n m dest src

-- The `n` bytes from `p` on.
abbrev pub bytes_at : Memory → ℕ → ℕ → List ℕ
bytes_at m p zero = []
bytes_at m p (suc n) = m p ∷ bytes_at m (p + 1) n

pub length-bytes_at : (m : Memory) (p n : ℕ) → length (bytes_at m p n) ≡ n
length-bytes_at m p zero = refl
length-bytes_at m p (suc n) = omega (arith, length-bytes_at m (p + 1) n)

pub get_or-bytes_at : (m : Memory) (p n i : ℕ) → i < n → get_or (bytes_at m p n) i 0 ≡ m (p + i)
get_or-bytes_at m p zero i h = absurd (omega arith)
get_or-bytes_at m p (suc n) zero h = ap m (omega arith)
get_or-bytes_at m p (suc n) (suc i) h =
    get_or-bytes_at m (p + 1) n i (omega arith) ∙ ap m (omega arith)

bytes_at-store :
    (m : Memory) (p n q v : ℕ) → Apart q 1 p n → bytes_at (store m q v) p n ≡ bytes_at m p n
bytes_at-store m p zero q v out = refl
bytes_at-store m p (suc n) q v out = ground (arith, bytes_at-store m (p + 1) n q v)

memcpy_loop-write :
    (n : ℕ) (m : Memory) (dest src : ℕ)
    → Apart dest n src n
    → memcpy_loop n m dest src ≡ write_bytes m dest (bytes_at m src n)
unfolding memcpy_loop
memcpy_loop-write zero m dest src out = refl
memcpy_loop-write (suc n) m dest src out =
    memcpy_loop-write n (store m dest (m src)) (dest + 1) (src + 1) (omega arith)
    ∙ ap (write_bytes (store m dest (m src)) (dest + 1))
        (bytes_at-store m (src + 1) n dest (m src) (omega arith))

memcpy_loop-add :
    (a b : ℕ) (m : Memory) (dest src : ℕ)
    → memcpy_loop (a + b) m dest src ≡ memcpy_loop b (memcpy_loop a m dest src) (dest + a) (src + a)
unfolding memcpy_loop
memcpy_loop-add zero b m dest src =
    let none_yet : zero + b ≡ b = omega arith in
    let to : dest + 0 ≡ dest = omega arith in
    let from : src + 0 ≡ src = omega arith in rw (none_yet, to, from) refl
memcpy_loop-add (suc a) b m dest src =
    let more : suc a + b ≡ suc (a + b) = omega arith in
    let to : dest + 1 + a ≡ dest + suc a = omega arith in
    let from : src + 1 + a ≡ src + suc a = omega arith in
    rw more (memcpy_loop-add a b (store m dest (m src)) (dest + 1) (src + 1) ∙ rw (to, from) refl)

memcpy_four :
    (n : ℕ) (m : Memory) (dest src : ℕ)
    → Apart dest 4 src 4
    → memcpy_loop (n + 4) m dest src ≡ memcpy_loop n (copy_dword m dest src) (dest + 4) (src + 4)
unfolding memcpy_loop
memcpy_four n m dest src out =
    let four : n + 4 ≡ suc (suc (suc (suc n))) = omega arith in rw four (ground arith)

memcpy_dwords-loop :
    (k : ℕ) (m : Memory) (dest src : ℕ)
    → Apart dest (k * 4) src (k * 4)
    → memcpy_dwords k m dest src ≡ memcpy_loop (k * 4) m dest src
unfolding memcpy_dwords
memcpy_dwords-loop zero m dest src out = unfold memcpy_loop in refl
memcpy_dwords-loop (suc k) m dest src out =
    let more : suc k * 4 ≡ k * 4 + 4 = omega arith in
    memcpy_dwords-loop k (copy_dword m dest src) (dest + 4) (src + 4) (omega arith)
    ∙ rw more (sym (memcpy_four (k * 4) m dest src (omega arith)))

memcpy_aligned-loop :
    (n : ℕ) (m : Memory) (dest src : ℕ)
    → Apart dest n src n
    → memcpy_aligned n m dest src ≡ memcpy_loop n m dest src
unfolding memcpy_aligned
memcpy_aligned-loop n m dest src out =
    let split : n ≡ n / 4 * 4 + n % 4 = omega arith in
    let parts = memcpy_loop-add (n / 4 * 4) (n % 4) m dest src in
    let whole : memcpy_loop n m dest src ≡ memcpy_loop (n / 4 * 4 + n % 4) m dest src =
      ap (λ (q : ℕ). memcpy_loop q m dest src) split in
    rw (memcpy_dwords-loop (n / 4) m dest src (omega arith)) (sym parts ∙ sym whole)

memcpy_loop-suc :
    (n : ℕ) (m : Memory) (dest src : ℕ)
    → memcpy_loop n (store m dest (m src)) (dest + 1) (src + 1) ≡ memcpy_loop (suc n) m dest src
unfolding memcpy_loop
memcpy_loop-suc n m dest src = refl

memcpy_top-loop :
    (n : ℕ) (m : Memory) (dest src : ℕ)
    → Apart dest n src n
    → memcpy_top n m dest src ≡ memcpy_loop n m dest src
unfolding memcpy_top
memcpy_top-loop zero m dest src out = unfold memcpy_loop in refl
memcpy_top-loop (suc n) m dest src out = elim (Bool-cases (dest % 4 == 0)) [
  | inl aligned ↦ rw aligned (memcpy_aligned-loop (suc n) m dest src out)
  | inr odd ↦ rw odd (
      memcpy_top-loop n (store m dest (m src)) (dest + 1) (src + 1) (omega arith)
      ∙ memcpy_loop-suc n m dest src)
]

-- `memcpy` of areas that do not overlap writes the bytes of the source at the destination, and
-- nothing else, whatever the alignment.
pub memcpy-write :
    (m : Memory) (dest src n : ℕ)
    → Apart dest n src n
    → memcpy m dest src n ≡ write_bytes m dest (bytes_at m src n)
unfolding memcpy
memcpy-write m dest src n out =
    memcpy_top-loop n m dest src out ∙ memcpy_loop-write n m dest src out

-- A byte of the copy.
pub memcpy_byte :
    (m : Memory) (dest src n i : ℕ)
    → Apart dest n src n
    → i < n
    → memcpy m dest src n (dest + i) ≡ m (src + i)
memcpy_byte m dest src n i out h = rw (memcpy-write m dest src n out) (
    write_bytes_inside m dest i (bytes_at m src n) (rw length-bytes_at h)
    ∙ get_or-bytes_at m src n i h)
