-- ===== src/Prelude/Table.antt =====
-- Facts about all numbers below a bound, by evaluation at each.
use Prim.Native.Nat.{ℕ, zero, suc, ◌<◌}
use mathlib.Core.Path.{◌≡◌}
use mathlib.Core.Bool.{Bool, true, ◌&&◌}
use native.Mathlib.Omega.{arith}

unfoldable pub check_below : ℕ → (ℕ → Bool) → Bool
check_below zero p = true
check_below (suc n) p = p n && check_below n p

pub check_below-lt : (n : ℕ) (p : ℕ → Bool) (x : ℕ) → check_below n p ≡ true → x < n → p x ≡ true
unfolding check_below
check_below-lt zero p x h lt = absurd (omega arith)
check_below-lt (suc n) p x h lt = ground (arith, check_below-lt n p x)
