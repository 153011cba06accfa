-- ===== src/Memory/Write.antt =====
-- Runs of bytes in the memory: what a sequence of stores leaves where.
use linux_kernel_os.Prelude.{
  length, get_or, ℕ, zero, suc, ◌+◌, ◌≤◌, ◌<◌, min, ◌≡◌, refl, ap, ◌∙◌, ◌⊎◌, List, [], ◌∷◌, ◌++◌,
  arith,
}
use linux_kernel_os.Memory.{Memory, store}

abbrev pub take {ℓ} : {A : Type ℓ} → ℕ → List A → List A
take zero xs = []
take (suc n) [] = []
take (suc n) (x ∷ xs) = x ∷ take n xs

pub length-take : (n : ℕ) (xs : List ℕ) → length (take n xs) ≡ min n (length xs)
length-take zero xs = omega arith
length-take (suc n) [] = omega arith
length-take (suc n) (x ∷ xs) = omega (arith, length-take n xs)

-- The `k` bytes from `p` and the `l` bytes from `q` have no byte in common.
abbrev pub Apart : ℕ → ℕ → ℕ → ℕ → Type 0
Apart p k q l = (p + k ≤ q) ⊎ (q + l ≤ p)

-- The bytes `bs` stored from `p` on, in order.
abbrev pub write_bytes : Memory → ℕ → List ℕ → Memory
write_bytes m p [] = m
write_bytes m p (b ∷ bs) = write_bytes (store m p b) (p + 1) bs

pub write_bytes-append :
    (m : Memory) (p : ℕ) (bs cs : List ℕ)
    → write_bytes m p (bs ++ cs) ≡ write_bytes (write_bytes m p bs) (p + length bs) cs
write_bytes-append m p [] cs = ap (λ (q : ℕ). write_bytes m q cs) (omega arith)
write_bytes-append m p (b ∷ bs) cs =
    write_bytes-append (store m p b) (p + 1) bs cs
    ∙ ap (λ (q : ℕ). write_bytes (write_bytes (store m p b) (p + 1) bs) q cs) (omega arith)

-- Memory outside the written run keeps its bytes.
pub write_bytes_outside :
    (m : Memory) (p a : ℕ) (bs : List ℕ) → Apart p (length bs) a 1 → write_bytes m p bs a ≡ m a
write_bytes_outside m p a [] out = refl
write_bytes_outside m p a (b ∷ bs) out =
    ground (arith, write_bytes_outside (store m p b) (p + 1) a bs)

-- Inside it, the byte is the one that was written there.
pub write_bytes_inside :
    (m : Memory) (p i : ℕ) (bs : List ℕ)
    → i < length bs
    → write_bytes m p bs (p + i) ≡ get_or bs i 0
write_bytes_inside m p i [] h = absurd (omega arith)
write_bytes_inside m p zero (b ∷ bs) h =
    ground (arith, write_bytes_outside (store m p b) (p + 1) (p + 0) bs)
write_bytes_inside m p (suc i) (b ∷ bs) h =
    let there : p + suc i ≡ p + 1 + i = omega arith in
    rw there (write_bytes_inside (store m p b) (p + 1) i bs (omega arith))
