-- ===== src/Prelude/Float.antt =====
-- Go's float64 as far as it is compared: a finite value is a whole number of units, the smallest
-- positive float64, 2 ^ -1074. (-0 is 0: no comparison tells them apart.)
use bigfleet_providers.Prelude.Int64.{ℤ, pos, ltb_ℤ, leb_ℤ, eqb_ℤ}
use Prim.Native.Nat.{ℕ, ◌*◌, ◌-◌, ◌^◌, ◌<◌}
use mathlib.Core.Bool.{Bool, true, false}
use native.Mathlib.Omega.{arith}

pub data Float : Type 0 where
  nan : Float
  neg_inf : Float
  finite : ℤ → Float
  pos_inf : Float

abbrev pub zero_float : Float
zero_float = finite (pos 0)

-- The float64 with an odd part `m` and the exponent `-k`.
unfoldable pub dyadic : ℕ → ℕ → Float
dyadic m k = finite (pos (m * 2 ^ (1074 - k)))

-- 1.0, the number of units in it.
unfoldable pub unit : ℕ
unit = 2 ^ 1074

abbrev pub one_float : Float
one_float = finite (pos unit)

abbrev pub is_nan : Float → Bool
is_nan nan = true
is_nan neg_inf = false
is_nan (finite a) = false
is_nan pos_inf = false

-- `a < b`: false where one of them is NaN.
abbrev pub lt_float : Float → Float → Bool
lt_float neg_inf neg_inf = false
lt_float neg_inf (finite b) = true
lt_float neg_inf pos_inf = true
lt_float (finite a) (finite b) = ltb_ℤ a b
lt_float (finite a) pos_inf = true
lt_float _ _ = false

-- `a <= b`
abbrev pub le_float : Float → Float → Bool
le_float neg_inf neg_inf = true
le_float neg_inf (finite b) = true
le_float neg_inf pos_inf = true
le_float (finite a) (finite b) = leb_ℤ a b
le_float (finite a) pos_inf = true
le_float pos_inf pos_inf = true
le_float _ _ = false

-- `a == b`: NaN is not even equal to itself.
abbrev pub eq_float : Float → Float → Bool
eq_float neg_inf neg_inf = true
eq_float (finite a) (finite b) = eqb_ℤ a b
eq_float pos_inf pos_inf = true
eq_float _ _ = false

pub unit-pos : 0 < unit
unfolding unit
unit-pos = omega arith
