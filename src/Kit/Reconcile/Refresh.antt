-- ===== src/Kit/Reconcile/Refresh.antt =====
-- What `refreshSubstrate` keeps and what it changes.
use bigfleet_providers.Prelude.{
  String, Bool, false, not, ◌≡◌, ◌∙◌, Bool-cases, inl, inr, if◌then◌else◌, arith,
}
use bigfleet_providers.Prelude.Float.{Float, eq_float}
use bigfleet_providers.Kit.Instance.{Instance}
use bigfleet_providers.Kit.Instance.Shape.{PriceFits, InUnitRange, SpotFits, InShape}
use bigfleet_providers.Kit.Machine.{StringMap, Machine, clone_map}
use bigfleet_providers.Kit.Reconcile.{
  maps_equal, refresh_price, refresh_probability, refresh_resources, refresh_allocatable,
  refresh_labels, refresh_substrate,
}
use bigfleet_providers.Kit.Sound.{Sound}

keep_map : StringMap → StringMap → StringMap
keep_map cur new = if not (maps_equal cur new) then clone_map new else cur

keep_float : Float → Float → Float
keep_float cur new = if eq_float cur new then cur else new

-- The record that a refresh leaves: the five facts of the substrate, each as it was or as reported.
unfoldable pub refreshed : Machine → Instance → Machine
unfolding keep_map keep_float
refreshed cur i = record cur {
  price_per_hour = keep_float cur.price_per_hour i.price_per_hour;
  interruption_probability = keep_float cur.interruption_probability i.interruption_probability;
  resources = keep_map cur.resources i.resources;
  allocatable = keep_map cur.allocatable i.allocatable;
  labels = keep_map cur.labels i.labels;
}

pub refresh_substrate_lem :
    (cur : Machine) (i : Instance) → (refresh_substrate cur i).0 ≡ refreshed cur i
unfolding refresh_substrate refreshed keep_float keep_map refresh_price refresh_probability
    refresh_resources refresh_allocatable refresh_labels
refresh_substrate_lem cur i = ground arith

-- A step that tells of no change made none, and none was made before.
abbrev Honest : (Machine × Bool → Machine × Bool) → Type 0
Honest step = (p : Machine × Bool) → (step p).1 ≡ false → ((step p).0 ≡ p.0) × (p.1 ≡ false)

module _ (i : Instance) where
  refresh_price-Honest : Honest (refresh_price i)
  unfolding refresh_price
  refresh_price-Honest p h = (ground arith, ground arith)

  refresh_probability-Honest : Honest (refresh_probability i)
  unfolding refresh_probability
  refresh_probability-Honest p h = (ground arith, ground arith)

  refresh_resources-Honest : Honest (refresh_resources i)
  unfolding refresh_resources
  refresh_resources-Honest p h = (ground arith, ground arith)

  refresh_allocatable-Honest : Honest (refresh_allocatable i)
  unfolding refresh_allocatable
  refresh_allocatable-Honest p h = (ground arith, ground arith)

  refresh_labels-Honest : Honest (refresh_labels i)
  unfolding refresh_labels
  refresh_labels-Honest p h = (ground arith, ground arith)

  -- A refresh that tells of no change leaves the record as it was.
  pub refresh_substrate_unchanged :
      (cur : Machine) → (refresh_substrate cur i).1 ≡ false → (refresh_substrate cur i).0 ≡ cur
  unfolding refresh_substrate
  refresh_substrate_unchanged cur h =
      let (e₅, h₅) = refresh_labels-Honest _ h in
      let (e₄, h₄) = refresh_allocatable-Honest _ h₅ in
      let (e₃, h₃) = refresh_resources-Honest _ h₄ in
      let (e₂, h₂) = refresh_probability-Honest _ h₃ in
      let (e₁, h₁) = refresh_price-Honest (cur, false) h₂ in e₅ ∙ e₄ ∙ e₃ ∙ e₂ ∙ e₁

keep_float_elim {ℓ} :
    (P : Float → Type ℓ) (cur new : Float) → P cur → P new → P (keep_float cur new)
unfolding keep_float
keep_float_elim P cur new a b = elim (Bool-cases (eq_float cur new)) [
  | inl y ↦ rw y a
  | inr n ↦ rw n b
]

-- A refresh from an instance in shape keeps a record sound: it writes prices, probabilities and maps
-- only.
pub refreshed-Sound :
    (rz : Bool) (id : String) (m : Machine) (i : Instance)
    → Sound rz id m
    → InShape rz i
    → Sound rz id (refreshed m i)
unfolding refreshed
refreshed-Sound rz id m i s h = record {
  key_is_id = s.key_is_id;
  id = s.id;
  instance_type = s.instance_type;
  capacity_type = s.capacity_type;
  zone = s.zone;
  price = keep_float_elim PriceFits m.price_per_hour i.price_per_hour s.price h.price;
  probability =
      keep_float_elim InUnitRange m.interruption_probability i.interruption_probability
        s.probability h.probability;
  host = s.host;
  binding = s.binding;
  error = s.error;
}

-- A refresh from a report in shape of the same capacity type keeps the probability of SPOT capacity
-- above 0.
pub refreshed-SpotFits :
    (rz : Bool) (m : Machine) (i : Instance)
    → InShape rz i
    → i.capacity_type ≡ m.capacity_type
    → SpotFits m.capacity_type m.interruption_probability
    → SpotFits (refreshed m i).capacity_type (refreshed m i).interruption_probability
unfolding refreshed
refreshed-SpotFits rz m i h e s =
    keep_float_elim (SpotFits m.capacity_type) m.interruption_probability i.interruption_probability
      s (rw (← e) h.spot)
