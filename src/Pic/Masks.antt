-- ===== src/Pic/Masks.antt =====
-- Which lines `enable_irq` and `disable_irq` leave masked.
use Prim.Native.Nat.{bit_and, bit_or}
use linux_kernel_os.Prelude.{
  ltb, ◌==◌, if◌then◌else◌, Bool-cases, ℕ, ◌+◌, ◌-◌, ◌/◌, ◌%◌, ◌^◌, ◌≤◌, ◌<◌, ◌≡◌, refl, sym, ap,
  inl, inr, Bool, true, false, not, ◌||◌, arith,
}
use linux_kernel_os.Prelude.Table.{check_below, check_below-lt}
use linux_kernel_os.Pic.{Pic, bit32, not32, enable_irq, disable_irq}

-- Whether line `j` of a controller is disabled.
abbrev pub masked : ℕ → ℕ → Bool
masked mask j = mask / 2 ^ j % 2 == 1

abbrev pub is_masked : Pic → ℕ → Bool
is_masked p j = if ltb j 8 then masked p.master_mask j else masked p.slave_mask (j - 8)

-- The masks are bytes.
abbrev pub IsPic : Pic → Type 0
IsPic p = (p.master_mask < 256) × (p.slave_mask < 256)

same : Bool → Bool → Bool
same true b = b
same false b = not b

same-eq : (a b : Bool) → same a b ≡ true → a ≡ b
unfolding same
same-eq true b h = sym h
same-eq false true h = h
same-eq false false h = refl

clear_row : ℕ → ℕ → ℕ → Bool
clear_row a i j =
    same (masked (bit_and a (not32 (bit32 i)) % 256) j) (if i == j then false else masked a j)

clear_table :
    check_below 256 (λ a. check_below 8 (λ i. check_below 8 (λ j. clear_row a i j))) ≡ true
unfolding check_below clear_row same
clear_table = refl

clear_bit :
    (a i j : ℕ)
    → a < 256
    → i < 8
    → j < 8
    → masked (bit_and a (not32 (bit32 i)) % 256) j ≡ (if i == j then false else masked a j)
unfolding clear_row
clear_bit a i j ha hi hj =
    same-eq _ _
      (check_below-lt 8 _ j (check_below-lt 8 _ i (check_below-lt 256 _ a clear_table ha) hi) hj)

set_row : ℕ → ℕ → ℕ → Bool
set_row a i j =
    same (masked (bit_or a (not32 (bit32 i)) % 256) j) (if i == j then masked a j else true)

set_table : check_below 256 (λ a. check_below 8 (λ i. check_below 8 (λ j. set_row a i j))) ≡ true
unfolding check_below set_row same
set_table = refl

set_others :
    (a i j : ℕ)
    → a < 256
    → i < 8
    → j < 8
    → masked (bit_or a (not32 (bit32 i)) % 256) j ≡ (if i == j then masked a j else true)
unfolding set_row
set_others a i j ha hi hj =
    same-eq _ _
      (check_below-lt 8 _ j (check_below-lt 8 _ i (check_below-lt 256 _ a set_table ha) hi) hj)

-- With masks that are bytes, `enable_irq` unmasks the line that it is given, of the 16 lines, and
-- leaves every other as it was.
is_masked-enable_irq :
    (p : Pic) (irq j : ℕ)
    → IsPic p
    → irq < 16
    → j < 16
    → is_masked (enable_irq p irq) j ≡ (if irq == j then false else is_masked p j)
unfolding enable_irq
is_masked-enable_irq p irq j v hi hj = elim (Bool-cases (ltb irq 8)) [
  | inl low ↦ ground (arith, clear_bit p.master_mask irq j)
  | inr high ↦ ground (arith, clear_bit p.slave_mask (irq - 8) (j - 8))
]

-- With masks that are bytes, `disable_irq` never masks the line of the slave that it is given: it
-- leaves that line as it was and masks every other line of the slave, and the master's lines stay
-- as they were.
pub is_masked-disable_irq :
    (p : Pic) (irq j : ℕ)
    → IsPic p
    → 8 ≤ irq
    → irq < 16
    → j < 16
    → is_masked (disable_irq p irq) j ≡ (if ltb j 8 || (irq == j) then is_masked p j else true)
unfolding disable_irq
is_masked-disable_irq p irq j v low hi hj =
    let back : (irq + 2 ^ 32 - 8) % 2 ^ 32 ≡ irq - 8 = omega arith in
    ground (
      arith,
      back,
      ap (λ (k : ℕ). masked (bit_or p.slave_mask (not32 (bit32 k)) % 256) (j - 8)) back,
      set_others p.slave_mask (irq - 8) (j - 8),
    )
