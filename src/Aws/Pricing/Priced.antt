-- ===== src/Aws/Pricing/Priced.antt =====
-- What the prices are after any refreshes: never negative, and never lost once they are known.
use bigfleet_providers.Prelude.{
  ℕ, pos, negsuc, String, String-discrete, Bool, true, false, Option, none, some, List, [], ◌∷◌,
  get, Every, ◌≡◌, refl, arith, inl, inr, Option-cases, if◌then◌else◌, ite,
}
use bigfleet_providers.Prelude.Float.{Float, zero_float, dyadic, lt_float}
use bigfleet_providers.Prelude.Product.{times, times-number}
use bigfleet_providers.Kit.Lifecycle.{CapacityType}
use bigfleet_providers.Kit.Instance.Shape.{PriceFits}
use bigfleet_providers.Kit.Server.{string_key}
use bigfleet_providers.Aws.Pricing.{
  Pricing, on_demand_us_east_1, on_demand_by_region, new_pricing, seed_of, price_of, spot_key,
  on_demand_price, three_tenths, price, live_or, spot_or,
}

abbrev pub Positive : Float → Type 0
Positive v = lt_float zero_float v ≡ true

Positive-PriceFits : (v : Float) → Positive v → PriceFits v
Positive-PriceFits Float.nan h = cc
Positive-PriceFits Float.neg_inf h = cc
Positive-PriceFits (Float.finite a) h = (refl, ground arith)
Positive-PriceFits Float.pos_inf h = (refl, refl)

-- A product with a positive constant is no price below 0 if the factor is none.
times-PriceFits : (a : ℕ) (v : Float) → PriceFits v → PriceFits (times a v)
unfolding times
times-PriceFits a Float.nan h = cc (h.0)
times-PriceFits a Float.neg_inf h = cc (h.1)
times-PriceFits a (Float.finite (pos n)) h = times-number a n
times-PriceFits a (Float.finite (negsuc n)) h = absurd (below h.1)
  where
    below : lt_float (Float.finite (negsuc n)) zero_float ≡ false → ⊥
    below e = ground arith
times-PriceFits a Float.pos_inf h = (refl, refl)

-- Prices that may be published: those of the tables are above 0, and no spot price is below 0.
pub record Priced (p : Pricing) : Type 0 where
  pub seed : Every (λ t v. Positive v) p.seed
  pub on_demand : Every (λ t v. Positive v) p.on_demand
  pub spot : Every (λ k v. PriceFits v) p.spot

all_positive : List (String × Float) → Bool
all_positive [] = true
all_positive (e ∷ t) = if lt_float zero_float e.1 then all_positive t else false

all_positive-Every :
    (t : List (String × Float)) → all_positive t ≡ true → Every (λ k v. Positive v) t
unfolding all_positive get
all_positive-Every [] h = λ k v g. cc
all_positive-Every (e ∷ t) h = λ k v g. ground (arith, all_positive-Every t (ground arith) k v)

table-positive : Every (λ t v. Positive v) on_demand_us_east_1
unfolding all_positive on_demand_us_east_1 dyadic
table-positive = all_positive-Every on_demand_us_east_1 refl

-- Every region starts with the one table that is pinned.
region-seed : (region : String) → (new_pricing region).seed ≡ on_demand_us_east_1
unfolding new_pricing on_demand_by_region get
region-seed region = ground (arith, baseline)
  where
    baseline :
        seed_of (get region on_demand_by_region)
        ≡ ite
            (String-discrete "us-east-1" region)
            on_demand_us_east_1
            (ite (String-discrete "us-west-2" region) on_demand_us_east_1 on_demand_us_east_1)
    baseline = ground arith

-- The first prices come of the table of the region, or of the baseline.
pub new_pricing-Priced : (region : String) → Priced (new_pricing region)
unfolding new_pricing get
new_pricing-Priced region = record {
  seed = rw (region-seed region) table-positive;
  on_demand = λ k v g. cc;
  spot = λ k v g. cc;
}

-- A type that has a price above 0.
abbrev pub IsPriced : String → Pricing → Type 0
IsPriced t p = Positive (on_demand_price t p)

pub not_live :
    (t : String) (p : Pricing)
    → get t p.on_demand ≡ none
    → on_demand_price t p ≡ price_of (get t p.seed)
unfolding on_demand_price live_or
not_live t p h = rw h refl

pub live :
    (t : String) (p : Pricing) (v : Float) → get t p.on_demand ≡ some v → on_demand_price t p ≡ v
unfolding on_demand_price live_or
live t p v h = rw h refl

pub on_demand_price-PriceFits :
    (t : String) (p : Pricing) → Priced p → PriceFits (on_demand_price t p)
on_demand_price-PriceFits t p h = elim (Option-cases (get t p.on_demand)) [
  | inl n ↦ rw (not_live t p n) (seed_fits (get t p.seed) (h.seed t))
  | inr (v, e) ↦ rw (live t p v e) (Positive-PriceFits v (h.on_demand t v e))
]
  where
    seed_fits :
        (o : Option Float) → ((v : Float) → o ≡ some v → Positive v) → PriceFits (price_of o)
    seed_fits none k = (refl, refl)
    seed_fits (some v) k = Positive-PriceFits v (k v refl)

-- Prices in order give a price in order to every machine.
pub price-PriceFits :
    (instance_type zone : String) (c : CapacityType) (p : Pricing)
    → Priced p
    → PriceFits (price instance_type zone c p)
unfolding price
price-PriceFits t z CapacityType.bare_metal p h = (refl, refl)
price-PriceFits t z CapacityType.spot p h =
    spot_fits (get (spot_key t z) p.spot) (h.spot (spot_key t z))
  where
    spot_fits :
        (o : Option Float)
        → ((v : Float) → o ≡ some v → PriceFits v)
        → PriceFits (spot_or o (on_demand_price t p))
    spot_fits none k =
        times-PriceFits three_tenths (on_demand_price t p) (on_demand_price-PriceFits t p h)
    spot_fits (some v) k = k v refl
price-PriceFits t z CapacityType.unspecified p h = on_demand_price-PriceFits t p h
price-PriceFits t z CapacityType.reserved p h = on_demand_price-PriceFits t p h
price-PriceFits t z CapacityType.on_demand p h = on_demand_price-PriceFits t p h
