-- ===== src/Aws/Interruption/Safety.antt =====
-- A SPOT machine is never published as free of interruption.
use bigfleet_providers.Prelude.{
  ℕ, String, Bool, true, false, ◌&&◌, Option, none, some, List, [], ◌∷◌, get, Every, insert-Every,
  get-remove, ◌≡◌, refl, arith, inl, inr, Bool-cases, Option-cases, if◌then◌else◌, Result,
}
use bigfleet_providers.Prelude.Float.{
  Float, zero_float, one_float, dyadic, unit, lt_float, le_float,
}
use bigfleet_providers.Kit.Errors.{Error}
use bigfleet_providers.Kit.Lifecycle.{CapacityType}
use bigfleet_providers.Kit.Server.{string_key}
use bigfleet_providers.Aws.Interruption.{
  Interruption, new_interruption, bucket_probability, advisor_bucket, nth, bucket_or_unknown,
  forecast, raised, spot_probability, probability, clamp, mark_warning, clear, Event, warn, handle,
}

-- Above 0 and at most 1.
pub record Risk (p : Float) : Type 0 where
  pub positive : lt_float zero_float p ≡ true
  pub at_most_one : le_float p one_float ≡ true

is_risk : Option Float → Bool
is_risk none = false
is_risk (some p) = lt_float zero_float p && le_float p one_float

all_risk : List (String × ℕ) → Bool
unfolding is_risk
all_risk [] = true
all_risk (e ∷ m) = is_risk (nth bucket_probability e.1) && all_risk m

table-risk : all_risk advisor_bucket ≡ true
unfolding all_risk is_risk nth bucket_probability advisor_bucket dyadic unit
table-risk = refl

unknown-risk : is_risk (nth bucket_probability 2) ≡ true
unfolding is_risk nth bucket_probability dyadic unit
unknown-risk = refl

get-risk :
    (t : String) (b : ℕ) (m : List (String × ℕ))
    → all_risk m ≡ true
    → get t m ≡ some b
    → is_risk (nth bucket_probability b) ≡ true
unfolding get all_risk
get-risk t b [] h g = cc
get-risk t b (e ∷ m) h g = ground (arith, get-risk t b m)

bucket-risk :
    (t : String)
    → is_risk (nth bucket_probability (bucket_or_unknown (get t advisor_bucket))) ≡ true
bucket-risk t = elim (Option-cases (get t advisor_bucket)) [
  | inl n ↦ rw n unknown-risk
  | inr (b, e) ↦ rw e (get-risk t b advisor_bucket table-risk e)
]

Risk-of : (p : Float) → is_risk (some p) ≡ true → Risk p
unfolding is_risk
Risk-of p h = record { positive = ground arith; at_most_one = ground arith }

-- What every observed value is: no more than 1, or NaN.
abbrev pub Clamped : Interruption → Type 0
Clamped i = Every (λ mid p. lt_float one_float p ≡ false) i.observed

capped : (p : Float) → lt_float one_float (if lt_float one_float p then one_float else p) ≡ false
unfolding unit
capped p = elim (Bool-cases (lt_float one_float p)) [ inl y ↦ rw y refl | inr n ↦ rw (n, n) refl ]

clamp_lem : (p : Float) → lt_float one_float (clamp p) ≡ false
unfolding clamp unit
clamp_lem p = elim (Bool-cases (le_float p zero_float)) [
  | inl y ↦ rw y refl
  | inr n ↦ rw n (capped p)
]

raised_positive :
    (a b : Float)
    → lt_float zero_float a ≡ true
    → lt_float a b ≡ true
    → lt_float zero_float b ≡ true
raised_positive (Float.finite a) (Float.finite b) h k = ground arith
raised_positive (Float.finite a) Float.pos_inf h k = refl
raised_positive Float.pos_inf b h k = cc
raised_positive Float.neg_inf b h k = cc
raised_positive Float.nan b h k = cc
raised_positive (Float.finite a) Float.neg_inf h k = cc
raised_positive (Float.finite a) Float.nan h k = cc

raised_at_most :
    (a b : Float) → lt_float a b ≡ true → lt_float one_float b ≡ false → le_float b one_float ≡ true
raised_at_most (Float.finite a) (Float.finite b) h k = ground arith
raised_at_most (Float.finite a) Float.pos_inf h k = cc
raised_at_most Float.pos_inf b h k = cc
raised_at_most Float.nan b h k = cc
raised_at_most Float.neg_inf (Float.finite b) h k = ground arith
raised_at_most Float.neg_inf Float.pos_inf h k = cc
raised_at_most Float.neg_inf Float.neg_inf h k = cc
raised_at_most Float.neg_inf Float.nan h k = cc
raised_at_most (Float.finite a) Float.neg_inf h k = cc
raised_at_most (Float.finite a) Float.nan h k = cc

raised-Risk :
    (o : Option Float) (base : Float)
    → ((p : Float) → o ≡ some p → lt_float one_float p ≡ false)
    → Risk base
    → Risk (raised o base)
raised-Risk none base h r = r
raised-Risk (some obs) base h r = elim (Bool-cases (lt_float base obs)) [
  | inl y ↦ rw y (record {
    positive = raised_positive base obs r.positive y;
    at_most_one = raised_at_most base obs y (h obs refl);
  })
  | inr n ↦ rw n r
]

mark_warning-Clamped :
    (mid : String) (p : Float) (i : Interruption) → Clamped i → Clamped (mark_warning mid p i)
unfolding mark_warning
mark_warning-Clamped mid p i c =
    insert-Every (λ mid p. lt_float one_float p ≡ false) mid _ i.observed c (clamp_lem p)

clear-Clamped : (mid : String) (i : Interruption) → Clamped i → Clamped (clear mid i)
unfolding clear
clear-Clamped mid i c k v g = c k v (ground (arith, get-remove k mid i.observed, g))

-- What happens to the observed probabilities.
pub data Notice : Type 0 where
  event : Result Error (List (String × String)) → Event → Notice
  cleared : String → Notice

unfoldable pub notice : Notice → Interruption → Interruption
notice (event managed ev) i = handle managed ev i
notice (cleared mid) i = clear mid i

unfoldable pub notice_all : List Notice → Interruption → Interruption
notice_all [] i = i
notice_all (n ∷ ns) i = notice_all ns (notice n i)

warn-Clamped :
    (p : Option Float) (a b : Bool) (mid : String) (i : Interruption)
    → Clamped i
    → Clamped (warn p a b mid i)
unfolding warn
warn-Clamped none a b mid i c = c
warn-Clamped (some p) true b mid i c = c
warn-Clamped (some p) false true mid i c = c
warn-Clamped (some p) false false mid i c = mark_warning-Clamped mid p i c

notice_all-Clamped : (ns : List Notice) (i : Interruption) → Clamped i → Clamped (notice_all ns i)
unfolding notice_all notice handle
notice_all-Clamped [] i c = c
notice_all-Clamped (event managed ev ∷ ns) i c = notice_all-Clamped ns _ (warn-Clamped _ _ _ _ i c)
notice_all-Clamped (cleared mid ∷ ns) i c = notice_all-Clamped ns _ (clear-Clamped mid i c)

spot-Risk :
    (o : Option Float) (f : Option Float)
    → ((p : Float) → o ≡ some p → lt_float one_float p ≡ false)
    → is_risk f ≡ true
    → (p : Float) × (spot_probability o f ≡ some p) × Risk p
unfolding is_risk
spot-Risk o none h r = cc
spot-Risk o (some base) h r = (raised o base, refl, raised-Risk o base h (Risk-of base r))

-- With observed values of that kind a SPOT machine has a probability above 0 and at most 1.
pub spot_probability-Risk :
    (i : Interruption) (mid instance_type : String)
    → Clamped i
    → (p : Float) × (probability mid instance_type CapacityType.spot i ≡ some p) × Risk p
unfolding probability forecast
spot_probability-Risk i mid instance_type h =
    spot-Risk _ _ (λ p e. h mid p e) (bucket-risk instance_type)

-- After any sequence of events and removals, the probability of a SPOT machine of any type is
-- published, is above 0 and is at most 1.
pub probability-Risk :
    (ns : List Notice) (mid instance_type : String)
    → (p : Float) × (probability mid instance_type CapacityType.spot
          (notice_all ns new_interruption)
        ≡ some p)
      × Risk p
unfolding get
probability-Risk ns mid instance_type =
    spot_probability-Risk (notice_all ns new_interruption) mid instance_type
      (notice_all-Clamped ns new_interruption (λ k v g. cc))
