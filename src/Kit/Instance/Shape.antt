-- ===== src/Kit/Instance/Shape.antt =====
-- The field-shape contract as a predicate, and `validate` as its decision.
use bigfleet_providers.Prelude.{
  String, Bool, true, false, Option, none, some, ◌≡◌, ◌≢◌, ◌↔◌, refl, arith, ◌&&◌, ◌||◌,
  if◌then◌else◌, if_neg, String-discrete,
}
use bigfleet_providers.Prelude.Float.{Float, zero_float, one_float, is_nan, lt_float, le_float}
use bigfleet_providers.Kit.Lifecycle.{State, CapacityType}
use bigfleet_providers.Kit.Fence.{is_empty}
use bigfleet_providers.Kit.Machine.{HostRef, host_empty}
use bigfleet_providers.Kit.Instance.{
  Instance, is_spot, no_capacity, validate, check_host, effective_state,
}

-- A price is a number that is not negative.
abbrev pub PriceFits : Float → Type 0
PriceFits p = (is_nan p ≡ false) × (lt_float p zero_float ≡ false)

-- A probability lies in [0, 1].
abbrev pub InUnitRange : Float → Type 0
InUnitRange p =
    (is_nan p ≡ false) × (lt_float p zero_float ≡ false) × (lt_float one_float p ≡ false)

-- Spot capacity has a positive probability.
abbrev pub SpotFits : CapacityType → Float → Type 0
SpotFits c p = c ≡ CapacityType.spot → lt_float zero_float p ≡ true

-- A slot has no host, and an idle machine has one.
abbrev pub RestFits : State → HostRef → Type 0
RestFits State.speculative h = host_empty h ≡ true
RestFits State.idle h = host_empty h ≡ false
RestFits _ h = ⊥

-- What the autoscaler relies on in a reported instance.
pub record InShape (require_zone : Bool) (i : Instance) : Type 0 where
  pub id : i.id ≢ ""
  pub instance_type : i.instance_type ≢ ""
  pub capacity_type : i.capacity_type ≢ CapacityType.unspecified
  pub zone : require_zone ≡ true → i.zone ≢ ""
  pub price : PriceFits i.price_per_hour
  pub probability : InUnitRange i.interruption_probability
  pub spot : SpotFits i.capacity_type i.interruption_probability
  pub rest : RestFits (effective_state i) i.host

check_host-RestFits : (s : State) (i : Instance) → check_host s i ≡ none → RestFits s i.host
unfolding check_host
check_host-RestFits State.speculative i h = ground arith
check_host-RestFits State.idle i h = ground arith
check_host-RestFits State.unspecified i h = cc
check_host-RestFits State.creating i h = cc
check_host-RestFits State.configuring i h = cc
check_host-RestFits State.configured i h = cc
check_host-RestFits State.draining i h = cc
check_host-RestFits State.deleting i h = cc
check_host-RestFits State.failed i h = cc

RestFits-check_host : (s : State) (i : Instance) → RestFits s i.host → check_host s i ≡ none
unfolding check_host
RestFits-check_host State.speculative i h = rw h
RestFits-check_host State.idle i h = rw h
RestFits-check_host State.unspecified i h = absurd h
RestFits-check_host State.creating i h = absurd h
RestFits-check_host State.configuring i h = absurd h
RestFits-check_host State.configured i h = absurd h
RestFits-check_host State.draining i h = absurd h
RestFits-check_host State.deleting i h = absurd h
RestFits-check_host State.failed i h = absurd h

lt_of_not-le :
    (p : Float) → is_nan p ≡ false → le_float p zero_float ≡ false → lt_float zero_float p ≡ true
lt_of_not-le Float.nan n h = cc
lt_of_not-le Float.neg_inf n h = cc
lt_of_not-le (Float.finite a) n h = ground arith
lt_of_not-le Float.pos_inf n h = refl

le_of_lt : (p : Float) → lt_float zero_float p ≡ true → le_float p zero_float ≡ false
le_of_lt Float.nan h = cc
le_of_lt Float.neg_inf h = cc
le_of_lt (Float.finite a) h = ground arith
le_of_lt Float.pos_inf h = refl

passed {ℓ} :
    {D : Type ℓ} (d : D) {rest : Option D} (b : Bool)
    → (if b then some d else rest) ≡ none
    → (b ≡ false) × (rest ≡ none)
passed d true h = cc
passed d false h = (refl, h)

is_empty-ne : (s : String) → is_empty s ≡ false → s ≢ ""
is_empty-ne s h e = ground arith

ne-is_empty : (s : String) → s ≢ "" → is_empty s ≡ false
ne-is_empty s h = if_neg (String-discrete s "") h _ _

has_capacity : (c : CapacityType) → no_capacity c ≡ false → c ≢ CapacityType.unspecified
has_capacity c h e = ground arith

no_capacity-eq : (c : CapacityType) → c ≢ CapacityType.unspecified → no_capacity c ≡ false
no_capacity-eq c h = ground arith

price_fits : (p : Float) → (is_nan p || lt_float p zero_float) ≡ false → PriceFits p
price_fits p h = ground arith

in_unit_range :
    (p : Float)
    → (is_nan p || (lt_float p zero_float || lt_float one_float p)) ≡ false
    → InUnitRange p
in_unit_range p h = (ground arith, ground arith, ground arith)

spot_fits :
    (c : CapacityType) (p : Float)
    → is_nan p ≡ false
    → (is_spot c && le_float p zero_float) ≡ false
    → SpotFits c p
spot_fits c p n h = λ e. lt_of_not-le p n (ground arith)

zone_given : (rz : Bool) (z : String) → (rz && is_empty z) ≡ false → rz ≡ true → z ≢ ""
zone_given rz z h e = is_empty-ne z (ground arith)

validate_sound : (rz : Bool) (i : Instance) → validate rz i ≡ none → InShape rz i
unfolding validate
validate_sound rz i h =
    let (id, h₁) = passed _ (is_empty i.id) h in
    let (type, h₂) = passed _ (is_empty i.instance_type) h₁ in
    let (capacity, h₃) = passed _ (no_capacity i.capacity_type) h₂ in
    let (zone, h₄) = passed _ (rz && is_empty i.zone) h₃ in
    let (price, h₅) =
      passed _ (is_nan i.price_per_hour || lt_float i.price_per_hour zero_float) h₄ in
    let (bounds, h₆) =
      passed _
        (is_nan i.interruption_probability
          || (lt_float i.interruption_probability zero_float
              || lt_float one_float i.interruption_probability))
        h₅ in
    let (spot, h₇) =
      passed _ (is_spot i.capacity_type && le_float i.interruption_probability zero_float) h₆ in
    record {
      id = is_empty-ne i.id id;
      instance_type = is_empty-ne i.instance_type type;
      capacity_type = has_capacity i.capacity_type capacity;
      zone = zone_given rz i.zone zone;
      price = price_fits i.price_per_hour price;
      probability = in_unit_range i.interruption_probability bounds;
      spot =
          spot_fits i.capacity_type i.interruption_probability
            (in_unit_range i.interruption_probability bounds).0 spot;
      rest = check_host-RestFits (effective_state i) i h₇;
    }

zone_passes : (rz : Bool) (z : String) → (rz ≡ true → z ≢ "") → (rz && is_empty z) ≡ false
zone_passes true z h = ne-is_empty z (h refl)
zone_passes false z h = refl

price_passes : (p : Float) → PriceFits p → (is_nan p || lt_float p zero_float) ≡ false
price_passes p h = ground arith

bounds_pass :
    (p : Float)
    → InUnitRange p
    → (is_nan p || (lt_float p zero_float || lt_float one_float p)) ≡ false
bounds_pass p h = rw (h.0, h.1, h.2)

spot_passes :
    (c : CapacityType) (p : Float) → SpotFits c p → (is_spot c && le_float p zero_float) ≡ false
spot_passes CapacityType.spot p h = le_of_lt p (h refl)
spot_passes _ p h = refl

validate_complete : (rz : Bool) (i : Instance) → InShape rz i → validate rz i ≡ none
unfolding validate
validate_complete rz i h =
    rw
      (
        ne-is_empty i.id h.id,
        ne-is_empty i.instance_type h.instance_type,
        no_capacity-eq i.capacity_type h.capacity_type,
        zone_passes rz i.zone h.zone,
        price_passes i.price_per_hour h.price,
        bounds_pass i.interruption_probability h.probability,
        spot_passes i.capacity_type i.interruption_probability h.spot,
      )
      (RestFits-check_host (effective_state i) i h.rest)

-- An instance passes `validate` exactly when it is in shape.
pub validate-InShape : (rz : Bool) (i : Instance) → (validate rz i ≡ none) ↔ InShape rz i
validate-InShape rz i = (validate_sound rz i, validate_complete rz i)
