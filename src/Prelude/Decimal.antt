-- ===== src/Prelude/Decimal.antt =====
-- `strconv.FormatInt(n, 10)` and `strconv.ParseInt(s, 10, 64)`, over the characters of a text.
use Prim.Native.Char.{Char, code}
use Prim.Native.Nat.{ℕ, zero, suc, ◌+◌, ◌-◌, ◌*◌, ◌/◌, ◌%◌, ◌≤◌, ◌<◌}
use Prim.Native.String.{String}
use mathlib.Core.Bool.{◌||◌}
use mathlib.Core.Logic.{inl, inr}
use mathlib.Core.Option.{Option, none, some}
use mathlib.Core.Path.{◌≡◌, refl, sym, ap, ◌∙◌}
use native.Mathlib.Omega.{arith}
use bigfleet_providers.Prelude.Basic.{ltb, leb, ◌==◌, if◌then◌else◌, Bool-cases}
use bigfleet_providers.Prelude.Int64.{ℤ, pos, negsuc, pos_part, neg_part, max_int64}

-- The character of a digit below ten.
abbrev digit : ℕ → Char
digit zero = "0"
digit (suc zero) = "1"
digit (suc (suc zero)) = "2"
digit (suc (suc (suc zero))) = "3"
digit (suc (suc (suc (suc zero)))) = "4"
digit (suc (suc (suc (suc (suc zero))))) = "5"
digit (suc (suc (suc (suc (suc (suc zero)))))) = "6"
digit (suc (suc (suc (suc (suc (suc (suc zero))))))) = "7"
digit (suc (suc (suc (suc (suc (suc (suc (suc zero)))))))) = "8"
digit (suc (suc (suc (suc (suc (suc (suc (suc (suc n))))))))) = "9"

-- The digits of `n` in front of `out`; more fuel than `n` has digits is enough.
emit : ℕ → ℕ → String → String
emit zero n out = out
emit (suc f) n out =
    let rest = emit f (n / 10) (String.◌∷◌ (digit (n % 10)) out) in
    if ltb n 10 then String.◌∷◌ (digit n) out else rest

-- `n / 10 ^ f` is 0 for a number of at most twenty digits.
abbrev format_fuel : ℕ → ℕ
format_fuel n = suc n

unfoldable pub format_ℕ : ℕ → String
unfolding emit
format_ℕ n = emit (format_fuel n) n String.[]

unfoldable pub format_int : ℤ → String
unfolding format_ℕ
format_int (pos n) = format_ℕ n
format_int (negsuc n) = String.◌∷◌ "-" (format_ℕ (suc n))

-- The digits read so far stand for `n`; a value past `max` is out of range.
scan : ℕ → String → ℕ → Option ℕ
scan max String.[] n = if leb n max then some n else none
scan max (String.◌∷◌ c s) n =
    if ltb (code c) b'0' || ltb b'9' (code c) then none else scan max s (n * 10 + (code c - b'0'))

-- A number needs a digit.
scan_number : ℕ → String → Option ℕ
unfolding scan
scan_number max String.[] = none
scan_number max (String.◌∷◌ c s) = scan max (String.◌∷◌ c s) 0

abbrev negate : ℕ → ℤ
negate zero = pos 0
negate (suc n) = negsuc n

abbrev parse_negative : Option ℕ → Option ℤ
parse_negative none = none
parse_negative (some n) = some (negate n)

abbrev parse_positive : Option ℕ → Option ℤ
parse_positive none = none
parse_positive (some n) = some (pos n)

-- `none` is the error of `ParseInt`: its other result is not read then.
unfoldable pub parse_int : String → Option ℤ
unfolding scan_number
parse_int String.[] = none
parse_int (String.◌∷◌ c s) =
    if code c == b'-'
    then parse_negative (scan_number (suc max_int64) s)
    else if code c == b'+'
    then parse_positive (scan_number max_int64 s)
    else parse_positive (scan_number max_int64 (String.◌∷◌ c s))

scan-digit :
    (max d : ℕ) (s : String) (n : ℕ)
    → d < 10
    → scan max (String.◌∷◌ (digit d) s) n ≡ scan max s (n * 10 + d)
unfolding scan
scan-digit max zero s n h = refl
scan-digit max (suc zero) s n h = refl
scan-digit max (suc (suc zero)) s n h = refl
scan-digit max (suc (suc (suc zero))) s n h = refl
scan-digit max (suc (suc (suc (suc zero)))) s n h = refl
scan-digit max (suc (suc (suc (suc (suc zero))))) s n h = refl
scan-digit max (suc (suc (suc (suc (suc (suc zero)))))) s n h = refl
scan-digit max (suc (suc (suc (suc (suc (suc (suc zero))))))) s n h = refl
scan-digit max (suc (suc (suc (suc (suc (suc (suc (suc zero)))))))) s n h = refl
scan-digit max (suc (suc (suc (suc (suc (suc (suc (suc (suc zero))))))))) s n h = refl
scan-digit max (suc (suc (suc (suc (suc (suc (suc (suc (suc (suc d)))))))))) s n h =
    absurd (omega arith)

-- To read the digits of `n` is to go on from `n`.
scan-emit : (max f n : ℕ) (out : String) → n < f → scan max (emit f n out) 0 ≡ scan max out n
unfolding emit
scan-emit max zero n out h = absurd (omega arith)
scan-emit max (suc f) n out h = elim (Bool-cases (ltb n 10)) [
  | inl small ↦
      rw small (rw (scan-digit max n out 0 (ground arith)) (ap (scan max out) (omega arith)))
  | inr large ↦ rw large (
      rw
        (
          scan-emit max f (n / 10) (String.◌∷◌ (digit (n % 10)) out) (ground arith),
          scan-digit max (n % 10) out (n / 10) (omega arith),
        )
        (ap (scan max out) (omega arith)))
]

-- A text that begins with a digit, hence with no sign.
abbrev DigitFirst : String → Type 0
DigitFirst s = (d : ℕ) × (t : String) × (d < 10) × (s ≡ String.◌∷◌ (digit d) t)

emit-DigitFirst : (f n : ℕ) (out : String) → DigitFirst out → DigitFirst (emit f n out)
unfolding emit
emit-DigitFirst zero n out h = h
emit-DigitFirst (suc f) n out h = elim (Bool-cases (ltb n 10)) [
  | inl small ↦ rw small (n, out, ground arith, refl)
  | inr large ↦ rw large (
      emit-DigitFirst f (n / 10) (String.◌∷◌ (digit (n % 10)) out) (n % 10, out, omega arith, refl))
]

format_ℕ-DigitFirst : (n : ℕ) → DigitFirst (format_ℕ n)
unfolding format_ℕ emit
format_ℕ-DigitFirst n = elim (Bool-cases (ltb n 10)) [
  | inl small ↦ rw small (n, String.[], ground arith, refl)
  | inr large ↦ rw large (
      emit-DigitFirst n (n / 10) (String.◌∷◌ (digit (n % 10)) String.[])
        (n % 10, String.[], omega arith, refl))
]

scan-format_ℕ : (max n : ℕ) → n ≤ max → scan max (format_ℕ n) 0 ≡ some n
unfolding format_ℕ
scan-format_ℕ max n h = scan-emit max (suc n) n String.[] (omega arith) ∙ scan_end
  where
    scan_end : scan max String.[] n ≡ some n
    scan_end = unfold scan in ground arith

scan_number-scan : (max : ℕ) (s : String) → DigitFirst s → scan_number max s ≡ scan max s 0
unfolding scan_number
scan_number-scan max s (d, t, h, e) = rw e refl

-- A digit is no sign.
parse_int-digit :
    (d : ℕ) (t : String)
    → d < 10
    → parse_int (String.◌∷◌ (digit d) t)
      ≡ parse_positive (scan_number max_int64 (String.◌∷◌ (digit d) t))
unfolding parse_int
parse_int-digit zero t h = refl
parse_int-digit (suc zero) t h = refl
parse_int-digit (suc (suc zero)) t h = refl
parse_int-digit (suc (suc (suc zero))) t h = refl
parse_int-digit (suc (suc (suc (suc zero)))) t h = refl
parse_int-digit (suc (suc (suc (suc (suc zero))))) t h = refl
parse_int-digit (suc (suc (suc (suc (suc (suc zero)))))) t h = refl
parse_int-digit (suc (suc (suc (suc (suc (suc (suc zero))))))) t h = refl
parse_int-digit (suc (suc (suc (suc (suc (suc (suc (suc zero)))))))) t h = refl
parse_int-digit (suc (suc (suc (suc (suc (suc (suc (suc (suc d))))))))) t h = refl

parse_int-minus :
    (s : String) → parse_int (String.◌∷◌ "-" s) ≡ parse_negative (scan_number (suc max_int64) s)
unfolding parse_int
parse_int-minus s = refl

-- The values of an int64.
abbrev pub IsInt64 : ℤ → Type 0
IsInt64 a = (pos_part a ≤ max_int64) × (neg_part a ≤ suc max_int64)

-- An int64 that is printed is read back.
pub parse_int-format_int : (a : ℤ) → IsInt64 a → parse_int (format_int a) ≡ some a
unfolding format_int
parse_int-format_int (pos n) h =
    let (d, t, lt, e) = format_ℕ-DigitFirst n in
    ap parse_int e
    ∙ parse_int-digit d t lt
    ∙ ap parse_positive (ap (scan_number max_int64) (sym e) ∙ read_back)
  where
    read_back : scan_number max_int64 (format_ℕ n) ≡ some n
    read_back =
        scan_number-scan max_int64 (format_ℕ n) (format_ℕ-DigitFirst n)
        ∙ scan-format_ℕ max_int64 n (omega arith)
parse_int-format_int (negsuc n) h =
    parse_int-minus (format_ℕ (suc n))
    ∙ ap parse_negative (
        scan_number-scan (suc max_int64) (format_ℕ (suc n)) (format_ℕ-DigitFirst (suc n))
        ∙ scan-format_ℕ (suc max_int64) (suc n) (omega arith))

-- Different int64 values are printed differently.
pub format_int_injective : (a b : ℤ) → IsInt64 a → IsInt64 b → format_int a ≡ format_int b → a ≡ b
format_int_injective a b ha hb e = cc (parse_int-format_int a ha, parse_int-format_int b hb, e)

-- The value of a text of digits.
pub read_digits : String → Option ℕ
read_digits s = scan max_int64 s 0

pub read_digits-format_ℕ : (n : ℕ) → n ≤ max_int64 → read_digits (format_ℕ n) ≡ some n
unfolding read_digits
read_digits-format_ℕ n h = scan-format_ℕ max_int64 n h

-- A zero in front does not count.
pub read_digits-zero : (s : String) → read_digits (String.◌∷◌ "0" s) ≡ read_digits s
unfolding read_digits scan
read_digits-zero s = refl

tests :
    (format_int (pos 10203) ≡ "10203")
    × (parse_int "-90" ≡ some (negsuc 89))
    × (parse_int "7x" ≡ none)
    × (parse_int "+" ≡ none)
unfolding format_int parse_int max_int64
tests = (refl, refl, refl, refl)
