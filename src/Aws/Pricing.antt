-- ===== src/Aws/Pricing.antt =====
-- providers/aws/pricing.go: the price of a machine, from the live prices and the pinned table.
pub mod Priced
pub mod Refreshes
use bigfleet_providers.Prelude.{
  ℕ, ◌+◌, ◌-◌, ◌*◌, ◌^◌, String, Option, none, some, List, [], ◌∷◌, get, insert, Result, ok, err,
  if◌then◌else◌,
}
use Prim.Native.String.{◌++◌}
use bigfleet_providers.Prelude.Float.{Float, zero_float, dyadic, lt_float}
use bigfleet_providers.Prelude.Product.{times}
use bigfleet_providers.Kit.Errors.{Error}
use bigfleet_providers.Kit.Lifecycle.{CapacityType}
use bigfleet_providers.Kit.Server.{string_key}
use bigfleet_providers.Aws.Ec2.{Ec2Client}

-- `pricing`.
pub record Pricing : Type 0 where
  pub region : String
  pub seed : List (String × Float)
  pub on_demand : List (String × Float)
  pub spot : List (String × Float)

-- `onDemandUSEast1`: the float64 values nearest to the prices of the table.
unfoldable pub on_demand_us_east_1 : List (String × Float)
on_demand_us_east_1 =
    ("m6i.large", dyadic 3458764513820541 55)
    ∷ ("m6i.xlarge", dyadic 3458764513820541 54)
    ∷ ("m6i.2xlarge", dyadic 3458764513820541 53)
    ∷ ("m6i.4xlarge", dyadic 3458764513820541 52)
    ∷ ("m6i.8xlarge", dyadic 3458764513820541 51)
    ∷ ("m7g.large", dyadic 734987459186865 53)
    ∷ ("m7g.xlarge", dyadic 734987459186865 52)
    ∷ ("m7g.2xlarge", dyadic 734987459186865 51)
    ∷ ("m7g.4xlarge", dyadic 734987459186865 50)
    ∷ ("c6i.large", dyadic 6124895493223875 56)
    ∷ ("c6i.xlarge", dyadic 6124895493223875 55)
    ∷ ("c6i.2xlarge", dyadic 6124895493223875 54)
    ∷ ("c6i.4xlarge", dyadic 6124895493223875 53)
    ∷ ("c7g.large", dyadic 5224175567749775 56)
    ∷ ("c7g.xlarge", dyadic 5224175567749775 55)
    ∷ ("c7g.2xlarge", dyadic 5224175567749775 54)
    ∷ ("c7g.4xlarge", dyadic 5224175567749775 53)
    ∷ ("r6i.large", dyadic 1134907106097365 53)
    ∷ ("r6i.xlarge", dyadic 1134907106097365 52)
    ∷ ("r6i.2xlarge", dyadic 1134907106097365 51)
    ∷ ("r6i.4xlarge", dyadic 1134907106097365 50)
    ∷ ("g5.xlarge", dyadic 4530621225134719 52)
    ∷ ("g5.2xlarge", dyadic 5458362748373041 52)
    ∷ ("g5.4xlarge", dyadic 3656922897424843 51)
    ∷ ("g5.12xlarge", dyadic 6386104271611363 50)
    ∷ []

unfoldable pub on_demand_by_region : List (String × List (String × Float))
on_demand_by_region = ("us-east-1", on_demand_us_east_1) ∷ ("us-west-2", on_demand_us_east_1) ∷ []

abbrev pub on_demand_baseline_region : String
on_demand_baseline_region = "us-east-1"

-- `m[k]`: a missing key reads as 0.
abbrev pub price_of : Option Float → Float
price_of none = zero_float
price_of (some v) = v

abbrev pub table_of : Option (List (String × Float)) → List (String × Float)
table_of none = []
table_of (some t) = t

abbrev pub seed_of : Option (List (String × Float)) → List (String × Float)
seed_of none = table_of (get on_demand_baseline_region on_demand_by_region)
seed_of (some t) = t

-- `newPricing`.
unfoldable pub new_pricing : String → Pricing
new_pricing region = record {
  region = region;
  seed = seed_of (get region on_demand_by_region);
  on_demand = [];
  spot = [];
}

-- `spotKey`.
unfoldable pub spot_key : String → String → String
spot_key instance_type zone = instance_type ++ ("|" ++ zone)

unfoldable pub live_or : Option Float → Float → Float
live_or none seed = seed
live_or (some v) seed = v

-- `onDemandPrice`.
unfoldable pub on_demand_price : String → Pricing → Float
unfolding live_or
on_demand_price instance_type p =
    live_or (get instance_type p.on_demand) (price_of (get instance_type p.seed))

-- 0.3, as a float64, in units.
unfoldable pub three_tenths : ℕ
three_tenths = 5404319552844595 * 2 ^ (1074 - 54)

unfoldable pub spot_or : Option Float → Float → Float
spot_or none base = times three_tenths base
spot_or (some v) base = v

-- `price`.
unfoldable pub price : String → String → CapacityType → Pricing → Float
unfolding spot_or
price instance_type zone CapacityType.bare_metal p = zero_float
price instance_type zone CapacityType.spot p =
    spot_or (get (spot_key instance_type zone) p.spot) (on_demand_price instance_type p)
price instance_type zone _ p = on_demand_price instance_type p

-- `spotPair`.
pub record SpotPair : Type 0 where
  pub instance_type : String
  pub zone : String

-- One round of the loop of `refresh`: the prices, and whether the fetch failed.
unfoldable pub keep_spot : Result Error Float → SpotPair → Pricing → Pricing × ℕ
keep_spot (err e) pair p = (p, 1)
keep_spot (ok v) pair p =
    (record p { spot = insert (spot_key pair.instance_type pair.zone) v p.spot }, 0)

-- The loop of `refreshOnDemand`: only a price above 0 overwrites.
unfoldable pub overlay : List (String × Float) → List (String × Float) → List (String × Float)
overlay [] on_demand = on_demand
overlay ((t, v) ∷ prices) on_demand =
    overlay prices (if lt_float zero_float v then insert t v on_demand else on_demand)

unfoldable pub keep_on_demand : Result Error (List (String × Float)) → Pricing → Pricing × ℕ
keep_on_demand (err e) p = (p, 1)
keep_on_demand (ok prices) p = (record p { on_demand = overlay prices p.on_demand }, 0)

module _ {E : Type 0} (client : Ec2Client E) where
  -- `refresh`: the prices and the number of pairs that failed. `e` is the region at that time.
  unfoldable pub refresh : List SpotPair → E → Pricing → Pricing × ℕ
  unfolding keep_spot
  refresh [] e p = (p, 0)
  refresh (pair ∷ pairs) e p =
      let (p', failed) = keep_spot (client.spot_price_usd pair.instance_type pair.zone e) pair p in
      let (p'', failures) = refresh pairs e p' in (p'', failed + failures)

  -- `refreshOnDemand`.
  unfoldable pub refresh_on_demand : List String → E → Pricing → Pricing × ℕ
  unfolding keep_on_demand
  refresh_on_demand types e p = keep_on_demand (client.on_demand_prices_usd types e) p
