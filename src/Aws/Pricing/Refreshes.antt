-- ===== src/Aws/Pricing/Refreshes.antt =====
-- What the refreshes of the prices keep: no price falls below 0, and no type loses its price.
use bigfleet_providers.Prelude.{
  String, none, List, [], ◌∷◌, get, insert, get-insert, Every, insert-Every, Result, ok, err, ◌≡◌,
  refl, arith, inl, inr, Bool-cases, Option-cases, if◌then◌else◌,
}
use bigfleet_providers.Prelude.Float.{Float, zero_float, lt_float}
use bigfleet_providers.Kit.Errors.{Error}
use bigfleet_providers.Kit.Lifecycle.{CapacityType}
use bigfleet_providers.Kit.Instance.Shape.{PriceFits}
use bigfleet_providers.Kit.Server.{string_key}
use bigfleet_providers.Aws.Ec2.{Ec2Client}
use bigfleet_providers.Aws.Pricing.{
  Pricing, SpotPair, new_pricing, spot_key, on_demand_price, price, overlay, keep_spot,
  keep_on_demand, refresh, refresh_on_demand,
}
use bigfleet_providers.Aws.Pricing.Priced.{
  Positive, Priced, IsPriced, not_live, live, new_pricing-Priced, price-PriceFits,
}

overlay-positive :
    (prices m : List (String × Float))
    → Every (λ t v. Positive v) m
    → Every (λ t v. Positive v) (overlay prices m)
unfolding overlay
overlay-positive [] m h = h
overlay-positive ((t, v) ∷ prices) m h = elim (Bool-cases (lt_float zero_float v)) [
  | inl y ↦
      rw y (overlay-positive prices (insert t v m) (insert-Every (λ t v. Positive v) t v m h y))
  | inr n ↦ rw n (overlay-positive prices m h)
]

-- An overlay loses no type.
overlay_missing :
    (prices m : List (String × Float)) (j : String)
    → get j (overlay prices m) ≡ none
    → get j m ≡ none
unfolding overlay
overlay_missing [] m j h = h
overlay_missing ((t, v) ∷ prices) m j h =
    before (overlay_missing prices (if lt_float zero_float v then insert t v m else m) j h)
  where
    before : get j (if lt_float zero_float v then insert t v m else m) ≡ none → get j m ≡ none
    before g = ground (arith, get-insert j t v m)

keep_on_demand-Priced :
    (r : Result Error (List (String × Float))) (p : Pricing)
    → Priced p
    → Priced (keep_on_demand r p).0
unfolding keep_on_demand
keep_on_demand-Priced (err e) p h = h
keep_on_demand-Priced (ok prices) p h = record {
  seed = h.seed;
  on_demand = overlay-positive prices p.on_demand h.on_demand;
  spot = h.spot;
}

-- A refresh of the on-demand prices keeps a type priced.
keep_on_demand-IsPriced :
    (t : String) (r : Result Error (List (String × Float))) (p : Pricing)
    → Priced p
    → IsPriced t p
    → IsPriced t (keep_on_demand r p).0
unfolding keep_on_demand
keep_on_demand-IsPriced t (err e) p h k = k
keep_on_demand-IsPriced t (ok prices) p h k =
    elim (Option-cases (get t (overlay prices p.on_demand))) [
      | inl n ↦
          rw (not_live t (record p { on_demand = overlay prices p.on_demand }) n)
            (rw (← not_live t p (overlay_missing prices p.on_demand t n)) k)
      | inr (v, e) ↦
          rw (live t (record p { on_demand = overlay prices p.on_demand }) v e)
            (overlay-positive prices p.on_demand h.on_demand t v e)
    ]

module _ {E : Type 0} (client : Ec2Client E)
    (numbers : (t z : String) (e : E) (v : Float)
      → client.spot_price_usd t z e ≡ ok v
      → PriceFits v) where
  keep_spot-Priced :
      (r : Result Error Float) (pair : SpotPair) (p : Pricing)
      → ((v : Float) → r ≡ ok v → PriceFits v)
      → Priced p
      → Priced (keep_spot r pair p).0
  unfolding keep_spot
  keep_spot-Priced (err e) pair p k h = h
  keep_spot-Priced (ok v) pair p k h = record {
    seed = h.seed;
    on_demand = h.on_demand;
    spot =
        insert-Every (λ k v. PriceFits v) (spot_key pair.instance_type pair.zone) v p.spot h.spot
          (k v refl);
  }

  keep_spot-IsPriced :
      (t : String) (r : Result Error Float) (pair : SpotPair) (p : Pricing)
      → IsPriced t p
      → IsPriced t (keep_spot r pair p).0
  unfolding keep_spot on_demand_price
  keep_spot-IsPriced t (err e) pair p k = k
  keep_spot-IsPriced t (ok v) pair p k = k

  refresh-Priced :
      (pairs : List SpotPair) (e : E) (p : Pricing) → Priced p → Priced (refresh client pairs e p).0
  unfolding refresh
  refresh-Priced [] e p h = h
  refresh-Priced (pair ∷ pairs) e p h =
      refresh-Priced pairs e _
        (keep_spot-Priced _ pair p (numbers pair.instance_type pair.zone e) h)

  refresh-IsPriced :
      (t : String) (pairs : List SpotPair) (e : E) (p : Pricing)
      → IsPriced t p
      → IsPriced t (refresh client pairs e p).0
  unfolding refresh
  refresh-IsPriced t [] e p k = k
  refresh-IsPriced t (pair ∷ pairs) e p k =
      refresh-IsPriced t pairs e _ (keep_spot-IsPriced t _ pair p k)

  -- The refreshes of a process, each with the state of the region at its time.
  pub data Refresh : Type 0 where
    of_spot : List SpotPair → E → Refresh
    of_on_demand : List String → E → Refresh

  unfoldable pub refreshed : Refresh → Pricing → Pricing
  refreshed (of_spot pairs e) p = (refresh client pairs e p).0
  refreshed (of_on_demand types e) p = (refresh_on_demand client types e p).0

  unfoldable pub refreshed_all : List Refresh → Pricing → Pricing
  refreshed_all [] p = p
  refreshed_all (r ∷ rs) p = refreshed_all rs (refreshed r p)

  refreshed-Priced : (r : Refresh) (p : Pricing) → Priced p → Priced (refreshed r p)
  unfolding refreshed refresh_on_demand
  refreshed-Priced (of_spot pairs e) p h = refresh-Priced pairs e p h
  refreshed-Priced (of_on_demand types e) p h = keep_on_demand-Priced _ p h

  pub refreshed_all-Priced :
      (rs : List Refresh) (p : Pricing) → Priced p → Priced (refreshed_all rs p)
  unfolding refreshed_all
  refreshed_all-Priced [] p h = h
  refreshed_all-Priced (r ∷ rs) p h = refreshed_all-Priced rs _ (refreshed-Priced r p h)

  refreshed-IsPriced :
      (t : String) (r : Refresh) (p : Pricing)
      → Priced p
      → IsPriced t p
      → IsPriced t (refreshed r p)
  unfolding refreshed refresh_on_demand
  refreshed-IsPriced t (of_spot pairs e) p h k = refresh-IsPriced t pairs e p k
  refreshed-IsPriced t (of_on_demand types e) p h k = keep_on_demand-IsPriced t _ p h k

  all-IsPriced :
      (t : String) (rs : List Refresh) (p : Pricing)
      → Priced p
      → IsPriced t p
      → IsPriced t (refreshed_all rs p)
  unfolding refreshed_all
  all-IsPriced t [] p h k = k
  all-IsPriced t (r ∷ rs) p h k =
      all-IsPriced t rs _ (refreshed-Priced r p h) (refreshed-IsPriced t r p h k)

  -- If EC2 answers with spot prices that are numbers not below 0: after any refreshes of the first
  -- prices of any region, the price of every machine is a number not below 0.
  pub price-refreshed_all :
      (rs : List Refresh) (region instance_type zone : String) (c : CapacityType)
      → PriceFits (price instance_type zone c (refreshed_all rs (new_pricing region)))
  price-refreshed_all rs region t z c =
      price-PriceFits t z c _ (refreshed_all-Priced rs _ (new_pricing-Priced region))

  -- If EC2 answers with spot prices that are numbers not below 0: an instance type with a price
  -- above 0 at one time has one above 0 after any further refreshes, whatever these fetch.
  pub refreshed_all-IsPriced :
      (before after : List Refresh) (region instance_type : String)
      → IsPriced instance_type (refreshed_all before (new_pricing region))
      → IsPriced instance_type (refreshed_all after (refreshed_all before (new_pricing region)))
  refreshed_all-IsPriced before after region t =
      all-IsPriced t after _ (refreshed_all-Priced before _ (new_pricing-Priced region))
