-- ===== src/Aws/Actuation/Unpriced.antt =====
-- The check that the provider makes before it serves: an empty `unpricedOnDemand` leaves no offering
-- that would be published at the price 0.
use bigfleet_providers.Prelude.{
  String, String-discrete, Bool, true, false, List, [], ◌∷◌, All, ◌≡◌, refl, sym, subst, ◌∙◌, arith,
  inl, inr, Bool-cases, if◌then◌else◌, if_neg,
}
use mathlib.Core.List.{Memᴰ}
use bigfleet_providers.Prelude.Float.{Float, zero_float, is_nan, le_float}
use bigfleet_providers.Kit.Lifecycle.{CapacityType}
use bigfleet_providers.Aws.Offering.{Offering, capacity_type}
use bigfleet_providers.Aws.InstanceTypes.{listed}
use bigfleet_providers.Aws.Pricing.{price}
use bigfleet_providers.Aws.Pricing.Priced.{Priced, IsPriced, Positive, on_demand_price-PriceFits}
use bigfleet_providers.Aws.Backend.{AwsBackend, AwsState, capacity_or_zero}
use bigfleet_providers.Aws.Actuation.{billed_on_demand, unpriced_from, unpriced_on_demand}

Positive-of : (v : Float) → is_nan v ≡ false → le_float v zero_float ≡ false → Positive v
Positive-of Float.nan n h = cc
Positive-of Float.neg_inf n h = cc
Positive-of (Float.finite a) n h = ground arith
Positive-of Float.pos_inf n h = refl

module _ {E : Type 0} (b : AwsBackend E) (s : AwsState E) (priced : Priced s.pricing) where
  -- An offering of on-demand or reserved capacity has a price above 0.
  abbrev pub OfferPriced : Offering → Type 0
  OfferPriced off =
      billed_on_demand b (capacity_or_zero (capacity_type off)) ≡ true
      → IsPriced off.instance_type s.pricing

  abbrev SeenPriced : List String → Type 0
  SeenPriced seen = (t : String) → listed t seen ≡ true → IsPriced t s.pricing

  price-billed :
      (off : Offering) (c : CapacityType)
      → billed_on_demand b c ≡ true
      → le_float (price off.instance_type off.zone c s.pricing) zero_float ≡ false
      → IsPriced off.instance_type s.pricing
  unfolding price
  price-billed off CapacityType.on_demand y h =
      Positive-of _ (on_demand_price-PriceFits off.instance_type s.pricing priced).0 h
  price-billed off CapacityType.reserved y h =
      Positive-of _ (on_demand_price-PriceFits off.instance_type s.pricing priced).0 h
  price-billed off CapacityType.unspecified y h = cc
  price-billed off CapacityType.bare_metal y h = cc
  price-billed off CapacityType.spot y h = cc

  SeenPriced-cons :
      (t : String) (seen : List String)
      → IsPriced t s.pricing
      → SeenPriced seen
      → SeenPriced (t ∷ seen)
  SeenPriced-cons t seen h k u l = elim (String-discrete t u) [
    | yes e ↦ subst (λ x. IsPriced x s.pricing) e h
    | no n ↦ k u (sym (if_neg (String-discrete t u) n _ _) ∙ l)
  ]

  abbrev billed : Offering → Bool
  billed off = billed_on_demand b (capacity_or_zero (capacity_type off))

  unpriced_skip :
      (off : Offering) (offs : List Offering) (seen : List String)
      → billed off ≡ false
      → unpriced_from b seen (off ∷ offs) s ≡ unpriced_from b seen offs s
  unfolding unpriced_from
  unpriced_skip off offs seen n = rw (unpriced_from, n) refl

  unpriced_seen :
      (off : Offering) (offs : List Offering) (seen : List String)
      → billed off ≡ true
      → listed off.instance_type seen ≡ true
      → unpriced_from b seen (off ∷ offs) s ≡ unpriced_from b seen offs s
  unfolding unpriced_from
  unpriced_seen off offs seen y l = rw (unpriced_from, y, l) refl

  abbrev bad_price : Offering → Bool
  bad_price off =
      le_float (price off.instance_type off.zone (capacity_or_zero (capacity_type off)) s.pricing)
        zero_float

  unpriced_new :
      (off : Offering) (offs : List Offering) (seen : List String)
      → billed off ≡ true
      → listed off.instance_type seen ≡ false
      → unpriced_from b seen (off ∷ offs) s ≡ (
          if bad_price off
          then off.instance_type ∷ unpriced_from b (off.instance_type ∷ seen) offs s
          else unpriced_from b (off.instance_type ∷ seen) offs s)
  unfolding unpriced_from
  unpriced_new off offs seen y n = rw (unpriced_from, y, n) refl

  none_bad :
      (t : String) (bad : Bool) (rest : List String)
      → (if bad then t ∷ rest else rest) ≡ []
      → (bad ≡ false) × (rest ≡ [])
  none_bad t true rest h = cc
  none_bad t false rest h = (refl, h)

  unpriced_from-All :
      (offs : List Offering) (seen : List String)
      → SeenPriced seen
      → unpriced_from b seen offs s ≡ []
      → All OfferPriced offs
  unpriced_from-All [] seen k h = tt
  unpriced_from-All (off ∷ offs) seen k h = elim (Bool-cases (billed off)) [
    | inr n ↦ (
      λ y. absurd (clash y n),
      unpriced_from-All offs seen k (sym (unpriced_skip off offs seen n) ∙ h),
    )
    | inl y ↦ elim (Bool-cases (listed off.instance_type seen)) [
      | inl l ↦ (
        λ y'. k off.instance_type l,
        unpriced_from-All offs seen k (sym (unpriced_seen off offs seen y l) ∙ h),
      )
      | inr m ↦
          let (good, rest) =
            none_bad off.instance_type (bad_price off) _
              (sym (unpriced_new off offs seen y m) ∙ h) in
          let this = price-billed off (capacity_or_zero (capacity_type off)) y good in
          (
            λ y'. this,
            unpriced_from-All offs (off.instance_type ∷ seen)
                (SeenPriced-cons off.instance_type seen this k) rest,
          )
    ]
  ]
    where
      clash : billed off ≡ true → billed off ≡ false → ⊥
      clash y n = cc

  -- With prices in order and a sort that loses nothing: if `unpricedOnDemand` names no type, every
  -- offering of on-demand or reserved capacity has a price above 0.
  pub unpriced_on_demand-All :
      (sort : List String → List String)
      → ((t : String) (ts : List String) → Memᴰ t ts → Memᴰ t (sort ts))
      → unpriced_on_demand b sort s ≡ []
      → All OfferPriced b.offerings
  unfolding unpriced_on_demand
  unpriced_on_demand-All sort keeps h =
      unpriced_from-All b.offerings [] (λ t l. absurd (clash l))
        (unsorted (unpriced_from b [] b.offerings s) h)
    where
      clash : false ≡ true → ⊥
      clash q = cc

      unsorted : (ts : List String) → sort ts ≡ [] → ts ≡ []
      unsorted [] q = refl
      unsorted (t ∷ ts) q = absurd (empty (subst (Memᴰ t) q (keeps t (t ∷ ts) (Memᴰ.head refl))))
        where
          empty : Memᴰ t [] → ⊥
          empty m = elim m [ ]
