-- ===== src/Print/Reverse.antt =====
-- What `strrev` does to a string.
use linux_kernel_os.Print.{strrev_loop, strrev}
use linux_kernel_os.Memory.{Memory, store}
use linux_kernel_os.Strings.{IsString}
use linux_kernel_os.Strings.Laws.{strlen-IsString}
use linux_kernel_os.Prelude.{
  ltb, leb, ◌==◌, if◌then◌else◌, Bool-cases, length, ℕ, zero, suc, ◌+◌, ◌-◌, ◌*◌, ◌^◌, ◌≤◌, ◌<◌,
  ◌≡◌, refl, ◌∙◌, inl, inr, ◌&&◌, some, List, arith,
}

-- The memory with the bytes from `beg` to `end` of a string in the opposite order.
abbrev pub mirrored : Memory → ℕ → ℕ → ℕ → Memory
mirrored m s beg end a =
    if leb (s + beg) a && leb a (s + end) then m (s + beg + (s + end) - a) else m a

mirrored_met : (m : Memory) (s beg end a : ℕ) → end ≤ beg → m a ≡ mirrored m s beg end a
mirrored_met m s beg end a met = ground arith

-- The exchange of the two bytes at the ends.
abbrev swapped : Memory → ℕ → ℕ → ℕ → Memory
swapped m s beg end = store (store m (s + end) (m (s + beg))) (s + beg) (m (s + end))

mirrored-swapped :
    (m : Memory) (s beg end a : ℕ)
    → beg < end
    → mirrored (swapped m s beg end) s (beg + 1) (end - 1) a ≡ mirrored m s beg end a
mirrored-swapped m s beg end a inside =
    let sum : s + (beg + 1) + (s + (end - 1)) ≡ s + beg + (s + end) = omega arith in
    elim (Bool-cases (s + beg == a)) [
      | inl first ↦ ground (arith, first, sum)
      | inr other ↦ elim (Bool-cases (s + end == a)) [
        | inl last ↦ ground (arith, last, sum)
        | inr between ↦ ground (arith, other, between, sum)
      ]
    ]

pub strrev_loop-mirrored :
    (k : ℕ) (m : Memory) (s beg end a : ℕ)
    → end ≤ beg + 2 * k
    → strrev_loop k m s beg end a ≡ mirrored m s beg end a
unfolding strrev_loop
strrev_loop-mirrored zero m s beg end a fuel = mirrored_met m s beg end a (omega arith)
strrev_loop-mirrored (suc k) m s beg end a fuel = elim (Bool-cases (ltb beg end)) [
  | inl inside ↦
      let rest =
        strrev_loop-mirrored k (swapped m s beg end) s (beg + 1) (end - 1) a (omega arith) in
      rw inside (rest ∙ mirrored-swapped m s beg end a (ground (arith, inside)))
  | inr met ↦ rw met (mirrored_met m s beg end a (ground (arith, met)))
]

-- On a string of fewer than 2 ^ 32 characters `strrev` comes to its end: it puts the characters in
-- the opposite order, and changes nothing else.
pub strrev-mirrored :
    (m : Memory) (s a : ℕ) (bs : List ℕ)
    → IsString m s bs
    → length bs < 2 ^ 32
    → (m' : Memory) × (strrev m s ≡ some m') × (m' a ≡ mirrored m s 0 (length bs - 1) a)
unfolding strrev
strrev-mirrored m s a bs is fits =
    let size = strlen-IsString m s bs is fits in
    (
      strrev_loop (length bs) m s 0 (length bs - 1),
      rw (strrev, size) refl,
      strrev_loop-mirrored (length bs) m s 0 (length bs - 1) a (omega arith),
    )
