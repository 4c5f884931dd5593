-- ===== src/Aws/Backend/Shape.antt =====
-- What the AWS provider describes is in the shape that the kit asks for.
use bigfleet_providers.Prelude.{
  ℕ, zero, suc, ℤ, pos, negsuc, String, String-discrete, true, false, List, [], ◌∷◌, All,
  All-append, Result, ok, err, ◌>>=◌, ◌≡◌, ◌≢◌, refl, arith,
}
use text.Mathlib.TextLemmas.{append-ne-nil_of_right_ne-nil, append-eq-nil_iff}
use bigfleet_providers.Prelude.Float.{Float, zero_float, one_float, lt_float, le_float}
use bigfleet_providers.Kit.Errors.{Error}
use bigfleet_providers.Kit.Fence.{is_empty}
use bigfleet_providers.Kit.Lifecycle.{CapacityType}
use bigfleet_providers.Kit.Machine.{no_host_ref-empty}
use bigfleet_providers.Kit.Instance.{effective_state}
use bigfleet_providers.Kit.Instance.Shape.{InShape, InUnitRange, SpotFits}
use bigfleet_providers.Kit.Server.{string_key}
use bigfleet_providers.Aws.Offering.{Offering, capacity_type}
use bigfleet_providers.Aws.Interruption.{Interruption, probability, forecast}
use bigfleet_providers.Aws.Interruption.Safety.{Risk, Clamped, spot_probability-Risk}
use bigfleet_providers.Aws.Pricing.Priced.{Priced, price-PriceFits}
use bigfleet_providers.Aws.Backend.{
  AwsBackend, AwsState, check_offering, check_offerings, capacity_or_zero, slot_id, published, slot,
  first_slots, counted_slots, slots_of,
}

Risk-InUnitRange : (p : Float) → Risk p → InUnitRange p
Risk-InUnitRange Float.nan r = cc (r.positive)
Risk-InUnitRange Float.neg_inf r = cc (r.positive)
Risk-InUnitRange (Float.finite a) r = (refl, below r.positive, above r.at_most_one)
  where
    below :
        lt_float zero_float (Float.finite a) ≡ true → lt_float (Float.finite a) zero_float ≡ false
    below h = ground arith

    above : le_float (Float.finite a) one_float ≡ true → lt_float one_float (Float.finite a) ≡ false
    above h = ground arith
Risk-InUnitRange Float.pos_inf r = cc (r.at_most_one)

-- A probability that may be published for the capacity type.
abbrev pub RiskFits : CapacityType → Float → Type 0
RiskFits c p = InUnitRange p × SpotFits c p

zero-InUnitRange : InUnitRange zero_float
zero-InUnitRange = (refl, refl, ground arith)

spot-RiskFits :
    (id t : String) (i : Interruption)
    → Clamped i
    → RiskFits CapacityType.spot (published (probability id t CapacityType.spot i))
spot-RiskFits id t i h =
    let (p, e, r) = spot_probability-Risk i id t h in rw e (Risk-InUnitRange p r, λ s. r.positive)

pub published-RiskFits :
    (id t : String) (c : CapacityType) (i : Interruption)
    → Clamped i
    → RiskFits c (published (probability id t c i))
unfolding probability forecast
published-RiskFits id t CapacityType.spot i h = spot-RiskFits id t i h
published-RiskFits id t CapacityType.unspecified i h = (zero-InUnitRange, λ e. cc)
published-RiskFits id t CapacityType.bare_metal i h = (zero-InUnitRange, λ e. cc)
published-RiskFits id t CapacityType.reserved i h = (zero-InUnitRange, λ e. cc)
published-RiskFits id t CapacityType.on_demand i h = (zero-InUnitRange, λ e. cc)

-- An offering that the provider accepts.
pub record Accepted (off : Offering) : Type 0 where
  pub capacity : CapacityType
  pub named : capacity_type off ≡ ok capacity
  pub given : capacity ≢ CapacityType.unspecified
  pub instance_type : off.instance_type ≢ ""
  pub zone : off.zone ≢ ""

capacity_type-given :
    (off : Offering) (c : CapacityType) → capacity_type off ≡ ok c → c ≢ CapacityType.unspecified
unfolding capacity_type
capacity_type-given off c h e = ground arith

not_empty : (s : String) → is_empty s ≡ false → s ≢ ""
not_empty s h e = ground arith

check_offering-Accepted :
    (r : Result Error CapacityType) (off : Offering)
    → capacity_type off ≡ r
    → check_offering r off ≡ ok tt
    → Accepted off
unfolding check_offering
check_offering-Accepted (err e) off q h = absurd (clash h)
  where
    clash : Path (Result Error (Unit {0})) (err e) (ok tt) → ⊥
    clash k = cc
check_offering-Accepted (ok c) off q h = record {
  capacity = c;
  named = q;
  given = capacity_type-given off c q;
  instance_type = not_empty off.instance_type (ground arith);
  zone = not_empty off.zone (ground arith);
}

both_ok : (r r' : Result Error (Unit {0})) → (r >>= λ u. r') ≡ ok tt → (r ≡ ok tt) × (r' ≡ ok tt)
both_ok (ok u) r' h = (refl, h)
both_ok (err e) r' h = absurd (clash h)
  where
    clash : Path (Result Error (Unit {0})) (err e) (ok tt) → ⊥
    clash k = cc

pub check_offerings-Accepted :
    (offs : List Offering) → check_offerings offs ≡ ok tt → All Accepted offs
unfolding check_offerings
check_offerings-Accepted [] h = tt
check_offerings-Accepted (off ∷ offs) h =
    let (first, rest) = both_ok (check_offering (capacity_type off) off) (check_offerings offs) h in
    (check_offering-Accepted (capacity_type off) off refl first, check_offerings-Accepted offs rest)

slash-full : ◌≢◌ {A = String} "/" ""
unfolding String-discrete
slash-full = not_empty "/" refl

-- A text with a slash in it is not empty.
pub slot_id-full :
    (name : String) (c : CapacityType) (off : Offering) (i : ℤ) → slot_id name c off i ≢ ""
unfolding slot_id
slot_id-full name c off i =
    append-ne-nil_of_right_ne-nil name (λ e. slash-full (append-eq-nil_iff.0 e).0)

module _ {E : Type 0} (b : AwsBackend E) (s : AwsState E) (priced : Priced s.pricing)
    (clamped : Clamped s.interruption) where
  slot-InShape :
      (c : CapacityType) (off : Offering) (i : ℕ)
      → Accepted off
      → c ≢ CapacityType.unspecified
      → InShape true (slot b c off i s)
  unfolding slot effective_state
  slot-InShape c off i a g =
      let id = slot_id b.provider_name c off (pos i) in
      let risk = published-RiskFits id off.instance_type c s.interruption clamped in
      record {
        id = slot_id-full b.provider_name c off (pos i);
        instance_type = a.instance_type;
        capacity_type = g;
        zone = λ e. a.zone;
        price = price-PriceFits off.instance_type off.zone c s.pricing priced;
        probability = risk.0;
        spot = risk.1;
        rest = no_host_ref-empty;
      }

  first_slots-InShape :
      (n : ℕ) (c : CapacityType) (off : Offering)
      → Accepted off
      → c ≢ CapacityType.unspecified
      → All (InShape true) (first_slots b n c off s)
  unfolding first_slots
  first_slots-InShape zero c off a g = tt
  first_slots-InShape (suc n) c off a g =
      All-append (InShape true) (first_slots b n c off s) _ (first_slots-InShape n c off a g)
        (slot-InShape c off n a g, tt)

  counted_slots-InShape :
      (n : ℤ) (off : Offering)
      → Accepted off
      → All (InShape true) (counted_slots b n (capacity_or_zero (capacity_type off)) off s)
  unfolding counted_slots
  counted_slots-InShape (negsuc n) off a = tt
  counted_slots-InShape (pos n) off a = rw a.named (first_slots-InShape n a.capacity off a a.given)

  pub slots_of-InShape :
      (offs : List Offering) → All Accepted offs → All (InShape true) (slots_of b offs s)
  unfolding slots_of
  slots_of-InShape [] h = tt
  slots_of-InShape (off ∷ offs) h =
      All-append (InShape true) (counted_slots b off.count _ off s) _
        (counted_slots-InShape off.count off h.0) (slots_of-InShape offs h.1)
