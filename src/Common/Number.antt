-- ===== src/Common/Number.antt =====
-- JavaScript numbers: what a caller may pass where a number is asked for. A finite one is a fraction.
use Prim.Native.Nat.{ℕ, suc, ◌*◌, ◌%◌}
use mathlib.Core.Bool.{Bool, true, false, not, ◌&&◌}
use vereda.Common.Tests.{ltb, ◌==◌}

pub data Number : Type 0 where
  nan : Number
  infinite : (negative : Bool) → Number
  fraction : (negative : Bool) (num pred_den : ℕ) → Number  -- over pred_den + 1

abbrev pub num : ℕ → Number
num n = fraction false n 0

abbrev pub is_finite : Number → Bool
is_finite (fraction s n d) = true
is_finite _ = false

abbrev pub is_integer : Number → Bool
is_integer (fraction s n d) = n % suc d == 0
is_integer _ = false

-- `x < y`, false where either is NaN.
abbrev pub less : Number → Number → Bool
less nan y = false
less (infinite s) nan = false
less (infinite true) (infinite true) = false
less (infinite true) (infinite false) = true
less (infinite true) (fraction s n d) = true
less (infinite false) (infinite s) = false
less (infinite false) (fraction s n d) = false
less (fraction s n d) nan = false
less (fraction s n d) (infinite true) = false
less (fraction s n d) (infinite false) = true
less (fraction false n d) (fraction false m e) = ltb (n * suc e) (m * suc d)
less (fraction false n d) (fraction true m e) = false
less (fraction true n d) (fraction false m e) = not (n == 0 && m == 0)
less (fraction true n d) (fraction true m e) = ltb (m * suc d) (n * suc e)

abbrev pub is_nan : Number → Bool
is_nan nan = true
is_nan _ = false

-- `x <= y`.
abbrev pub less_eq : Number → Number → Bool
less_eq x y = not (is_nan x) && not (is_nan y) && not (less y x)
