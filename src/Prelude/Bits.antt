-- ===== src/Prelude/Bits.antt =====
-- `|` and `&` at variables: flags or'ed into an aligned word, and the mask that aligns a word.
use Prim.Native.Nat.{min, max, bit_and, bit_or, digits, bit_and-bitwise, bit_or-bitwise}
use Prim.Native.Nat.{ℕ, zero, suc, ◌+◌, ◌-◌, ◌*◌, ◌/◌, ◌%◌, ◌^◌, ◌≤◌, ◌<◌}
use mathlib.Core.Path.{◌≡◌, refl, sym, ap, ◌∙◌}
use native.Mathlib.Nat.{pow-suc}
use native.Mathlib.Omega.{arith}

abbrev or_digits : ℕ → ℕ → ℕ → ℕ
or_digits = digits (λ b. b) max

abbrev and_digits : ℕ → ℕ → ℕ → ℕ
and_digits = digits (λ b. 0) min

or_digits-zero : (n a : ℕ) → a ≤ n → or_digits n a 0 ≡ a
or_digits-zero zero a h = omega arith
or_digits-zero (suc n) zero h = refl
or_digits-zero (suc n) (suc a) h = omega (arith, or_digits-zero n (suc a / 2) (omega arith))

-- `q * 2 ^ suc k` is twice `q * 2 ^ k`.
shifted : (q k : ℕ) → q * 2 ^ suc k ≡ q * 2 ^ k * 2
shifted q k = omega (arith, ap (λ (t : ℕ). q * t) (pow-suc 2 k))

or_digits-aligned : (k n a q r : ℕ) → a ≡ q * 2 ^ k → r < 2 ^ k → a ≤ n → or_digits n a r ≡ a + r
or_digits-aligned zero n a q r e small h =
    let none_low : r ≡ 0 = omega arith in
    omega (arith, or_digits-zero n a h, ap (or_digits n a) none_low)
or_digits-aligned (suc k) zero a q r e small h = omega arith
or_digits-aligned (suc k) (suc n) zero q r e small h = omega arith
or_digits-aligned (suc k) (suc n) (suc a) q r e small h = omega (
  arith,
  shifted q k,
  or_digits-aligned k n (suc a / 2) q (r / 2) (omega (arith, shifted q k))
      (omega (arith, pow-suc 2 k)) (omega arith),
)

-- Or'ing in a number below 2 ^ k adds it to a multiple of 2 ^ k.
pub bit_or-aligned : (k q r : ℕ) → r < 2 ^ k → bit_or (q * 2 ^ k) r ≡ q * 2 ^ k + r
bit_or-aligned k q r small = omega (
  arith,
  bit_or-bitwise (q * 2 ^ k) r,
  or_digits-aligned k (q * 2 ^ k) (q * 2 ^ k) q r refl small (omega arith),
)

and_digits-zero : (n a : ℕ) → and_digits n a 0 ≡ 0
and_digits-zero zero a = refl
and_digits-zero (suc n) zero = refl
and_digits-zero (suc n) (suc a) = omega (arith, and_digits-zero n (suc a / 2))

and_digits_ones :
    (j n a q r : ℕ) → a ≡ q * 2 ^ j + r → r < 2 ^ j → a ≤ n → and_digits n a (2 ^ j - 1) ≡ r
and_digits_ones zero n a q r e small h = omega (arith, and_digits-zero n a)
and_digits_ones (suc j) zero a q r e small h = omega arith
and_digits_ones (suc j) (suc n) zero q r e small h = omega arith
and_digits_ones (suc j) (suc n) (suc a) q r e small h =
    let half : (2 ^ suc j - 1) / 2 ≡ 2 ^ j - 1 = omega (arith, pow-suc 2 j) in
    omega (
      arith,
      shifted q j,
      pow-suc 2 j,
      ap (and_digits n (suc a / 2)) half,
      and_digits_ones j n (suc a / 2) q (r / 2) (omega (arith, shifted q j))
          (omega (arith, pow-suc 2 j)) (omega arith),
    )

le-shifted : (s k : ℕ) → s ≤ s * 2 ^ k
le-shifted s zero = omega arith
le-shifted s (suc k) = omega (arith, shifted s k, le-shifted s k)

and_digits-aligned :
    (k n a s t m c : ℕ)
    → a ≡ s * 2 ^ k + t
    → t < 2 ^ k
    → a ≤ n
    → ((l : ℕ) → s ≤ l → and_digits l s m ≡ c)
    → and_digits n a (m * 2 ^ k) ≡ c * 2 ^ k
and_digits-aligned zero n a s t m c e small h low =
    let same : a ≡ s = omega arith in
    let whole : m * 2 ^ 0 ≡ m = omega arith in
    let there = low n (omega arith) in rw (whole, same) (omega (arith, there))
and_digits-aligned (suc k) zero a s t m c e small h low =
    let none_high : s ≡ 0 = omega (arith, le-shifted s (suc k)) in
    let empty : c ≡ 0 = sym (low 0 (omega (arith, none_high))) in rw empty (omega arith)
and_digits-aligned (suc k) (suc n) zero s t m c e small h low =
    let none_high : s ≡ 0 = omega (arith, le-shifted s (suc k)) in
    let empty : c ≡ 0 = sym (low 0 (omega (arith, none_high))) in rw empty (omega arith)
and_digits-aligned (suc k) (suc n) (suc a) s t m c e small h low =
    let half : m * 2 ^ suc k / 2 ≡ m * 2 ^ k = omega (arith, shifted m k) in
    let even : m * 2 ^ suc k % 2 ≡ 0 = omega (arith, shifted m k) in
    omega (
      arith,
      shifted c k,
      ap (and_digits n (suc a / 2)) half,
      even,
      and_digits-aligned k n (suc a / 2) s (t / 2) m c (omega (arith, shifted s k))
          (omega (arith, pow-suc 2 k)) (omega arith) low,
    )

-- The mask of `j` ones above `k` zeros clears the low `k` bits of a number of `j + k` bits.
pub bit_and-mask :
    (j k s t : ℕ)
    → s < 2 ^ j
    → t < 2 ^ k
    → bit_and (s * 2 ^ k + t) ((2 ^ j - 1) * 2 ^ k) ≡ s * 2 ^ k
bit_and-mask j k s t high low =
    bit_and-bitwise (s * 2 ^ k + t) ((2 ^ j - 1) * 2 ^ k)
    ∙ and_digits-aligned k (s * 2 ^ k + t) (s * 2 ^ k + t) s t (2 ^ j - 1) s refl low (omega arith)
        (λ l h. and_digits_ones j l s 0 s (omega arith) high h)
