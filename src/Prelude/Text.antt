-- ===== src/Prelude/Text.antt =====
-- Text of Go's fmt and strings packages: numbers padded with zeros, prefixes, lower case.
use Prim.Native.Char.{code}
use Prim.Native.Nat.{ℕ, zero, suc, ◌+◌, ◌-◌, ◌≤◌}
use Prim.Native.String.{String}
use mathlib.Core.Bool.{Bool, true, false, ◌&&◌}
use mathlib.Core.Option.{some}
use mathlib.Core.Path.{◌≡◌, refl, ◌∙◌}
use bigfleet_providers.Prelude.Basic.{leb, ◌==◌, if◌then◌else◌}
use bigfleet_providers.Prelude.Int64.{ℤ, pos, negsuc, max_int64}
use bigfleet_providers.Prelude.Decimal.{
  format_ℕ, read_digits, read_digits-format_ℕ, read_digits-zero,
}

abbrev width_of : String → ℕ
width_of String.[] = 0
width_of (String.◌∷◌ c s) = suc (width_of s)

zeros : ℕ → String → String
zeros zero s = s
zeros (suc n) s = String.◌∷◌ "0" (zeros n s)

padded_ℕ : ℕ → ℕ → String
unfolding zeros
padded_ℕ w n = zeros (w - width_of (format_ℕ n)) (format_ℕ n)

-- `%0wd`: a sign counts for the width.
unfoldable pub padded : ℕ → ℤ → String
unfolding padded_ℕ
padded w (pos n) = padded_ℕ w n
padded w (negsuc n) = String.◌∷◌ "-" (padded_ℕ (w - 1) (suc n))

-- `strings.HasPrefix`.
unfoldable pub has_prefix : String → String → Bool
has_prefix s String.[] = true
has_prefix String.[] (String.◌∷◌ d p) = false
has_prefix (String.◌∷◌ c s) (String.◌∷◌ d p) = (code c == code d) && has_prefix s p

lower_code : ℕ → ℕ
lower_code c = if leb b'A' c && leb c b'Z' then c + 32 else c

-- `strings.ToLower(s) == w` for a text `w` of ASCII letters other than "i" and "k", and of signs:
-- no other letter than A to Z becomes one of those.
unfoldable pub lower_is : String → String → Bool
unfolding lower_code
lower_is String.[] String.[] = true
lower_is String.[] (String.◌∷◌ d w) = false
lower_is (String.◌∷◌ c s) String.[] = false
lower_is (String.◌∷◌ c s) (String.◌∷◌ d w) = (lower_code (code c) == code d) && lower_is s w

read_zeros : (n : ℕ) (s : String) → read_digits (zeros n s) ≡ read_digits s
unfolding zeros
read_zeros zero s = refl
read_zeros (suc n) s = read_digits-zero (zeros n s) ∙ read_zeros n s

-- A padded number is read back.
read_padded : (w n : ℕ) → n ≤ max_int64 → read_digits (padded w (pos n)) ≡ some n
unfolding padded
read_padded w n h = read_zeros (w - width_of (format_ℕ n)) (format_ℕ n) ∙ read_digits-format_ℕ n h

-- Different numbers are printed differently.
pub padded_injective :
    (w m n : ℕ) → m ≤ max_int64 → n ≤ max_int64 → padded w (pos m) ≡ padded w (pos n) → m ≡ n
padded_injective w m n hm hn e = cc (read_padded w m hm, read_padded w n hn, e)

tests :
    (padded 3 (pos 7) ≡ "007")
    × (padded 8 (pos 12) ≡ "00000012")
    × (padded 2 (pos 123) ≡ "123")
    × (has_prefix "g5.xlarge" "g5." ≡ true)
    × (has_prefix "p" "p4" ≡ false)
    × (lower_is "On_Demand" "on_demand" ≡ true)
unfolding padded has_prefix format_ℕ lower_is
tests = (refl, refl, refl, refl, refl, refl)
