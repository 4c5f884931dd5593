-- ===== src/Prelude/Product.antt =====
-- The float64 product of a positive constant and another value, rounded to the nearest float64, a
-- tie to the even one.
use Prim.Native.Nat.{ℕ, zero, suc, ◌+◌, ◌-◌, ◌<◌, ◌*◌, ◌/◌, ◌%◌, ◌^◌}
use mathlib.Core.Bool.{Bool, true, false}
use mathlib.Core.Path.{◌≡◌, refl}
use native.Mathlib.Omega.{arith}
use bigfleet_providers.Prelude.Basic.{ltb, leb, ◌==◌, if◌then◌else◌}
use bigfleet_providers.Prelude.Int64.{pos, negsuc}
use bigfleet_providers.Prelude.Float.{
  Float, nan, neg_inf, finite, pos_inf, dyadic, zero_float, is_nan, lt_float,
}

-- The number of binary digits of `n`, if it has at most as many as the fuel.
bits : ℕ → ℕ → ℕ
bits zero n = 0
bits (suc f) n = elim (n == 0) [ true ↦ 0 | false ↦ suc (bits f (n / 2)) ]

-- Enough fuel gives enough digits.
bits_lem : (f n : ℕ) → n < 2 ^ f → n < 2 ^ bits f n
unfolding bits
bits_lem zero n h = h
bits_lem (suc f) n h = with_zero (bits_lem f (n / 2) (omega arith)) (n == 0) refl
  where
    with_zero :
        n / 2 < 2 ^ bits f (n / 2)
        → (b : Bool) → (n == 0) ≡ b
        → n < 2 ^ elim b [ true ↦ 0 | false ↦ suc (bits f (n / 2)) ]
    with_zero h true e = ground arith
    with_zero h false e = omega arith

-- More digits than the product of two finite float64 values has.
abbrev fuel : ℕ
fuel = 4200

-- `n / d`, rounded.
rounded : ℕ → ℕ → ℕ
rounded n d =
    let q = n / d in
    let r = n % d in if ltb (2 * r) d then q else if ltb d (2 * r) then q + 1 else q + q % 2

-- A product of two numbers of units has 1074 binary places too many; of the rest, 53 digits stay.
product_units : ℕ → ℕ → ℕ
unfolding bits rounded
product_units a b =
    let p = a * b in let e = bits fuel p - (1074 + 53) in rounded p (2 ^ (1074 + e)) * 2 ^ e

-- 2 ^ 1024 is past the largest float64.
positive : ℕ → Float
positive n = if leb (2 ^ 2098) n then pos_inf else finite (pos n)

negative : ℕ → Float
negative zero = finite (pos 0)
negative (suc n) = if leb (2 ^ 2098) (suc n) then neg_inf else finite (negsuc n)

-- The product of the value of `a` units, which is positive, and `x`.
unfoldable pub times : ℕ → Float → Float
unfolding product_units positive negative
times a nan = nan
times a neg_inf = neg_inf
times a (finite (pos b)) = positive (product_units a b)
times a (finite (negsuc b)) = negative (product_units a (suc b))
times a pos_inf = pos_inf

positive-number :
    (n : ℕ) → (is_nan (positive n) ≡ false) × (lt_float (positive n) zero_float ≡ false)
unfolding positive
positive-number n = with_overflow (leb (2 ^ 2098) n)
  where
    with_overflow :
        (b : Bool)
        → (is_nan (if b then pos_inf else finite (pos n)) ≡ false)
          × (lt_float (if b then pos_inf else finite (pos n)) zero_float ≡ false)
    with_overflow true = (refl, refl)
    with_overflow false = (refl, ground arith)

-- The product with a value that is not below 0 is a number that is not below 0.
pub times-number :
    (a b : ℕ)
    → (is_nan (times a (finite (pos b))) ≡ false)
      × (lt_float (times a (finite (pos b))) zero_float ≡ false)
unfolding times
times-number a b = positive-number (product_units a b)

-- The products of 0.3 with 1.006 and with 0.0725.
tests :
    (times (5404319552844595 * 2 ^ (1074 - 54)) (dyadic 4530621225134719 52)
      ≡ dyadic 5436745470161663 54)
    × (times (5404319552844595 * 2 ^ (1074 - 54)) (dyadic 5224175567749775 56)
        ≡ dyadic 3134505340649865 57)
unfolding times dyadic
tests = (refl, refl)
