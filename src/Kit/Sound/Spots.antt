-- ===== src/Kit/Sound/Spots.antt =====
-- The part of the field-shape contract that a refresh can break: SPOT capacity has a probability
-- above 0. `cap` is the capacity type of each machine id.
use bigfleet_providers.Prelude.{String, Bool, List, All, Every, ◌≡◌, sym, ◌∙◌}
use bigfleet_providers.Kit.Lifecycle.{CapacityType}
use bigfleet_providers.Kit.Machine.{Machine}
use bigfleet_providers.Kit.Instance.{Instance, to_machine}
use bigfleet_providers.Kit.Instance.Shape.{SpotFits, InShape}
use bigfleet_providers.Kit.Server.{string_key}
use bigfleet_providers.Kit.Reconcile.Refresh.{refreshed, refreshed-SpotFits}

module _ (cap : String → CapacityType) where
  -- A record of the capacity type of its id, with a probability above 0 where that is SPOT.
  abbrev pub Spotted : String → Machine → Type 0
  Spotted id m = (m.capacity_type ≡ cap id) × SpotFits m.capacity_type m.interruption_probability

  abbrev pub AllSpotted : List (String × Machine) → Type 0
  AllSpotted machines = Every Spotted machines

  -- Reports that keep the capacity types.
  abbrev pub AsExpected : List Instance → Type 0
  AsExpected is = All (λ i. i.capacity_type ≡ cap i.id) is

  -- Neither the capacity type nor the probability changes.
  pub Spotted-same :
      (id : String) (m m' : Machine)
      → m'.capacity_type ≡ m.capacity_type
      → m'.interruption_probability ≡ m.interruption_probability
      → Spotted id m
      → Spotted id m'
  Spotted-same id m m' c p h = rw (c, p) h

  pub to_machine-Spotted :
      (rz : Bool) (i : Instance)
      → InShape rz i
      → i.capacity_type ≡ cap i.id
      → Spotted i.id (to_machine i)
  unfolding to_machine
  to_machine-Spotted rz i h e = (e, h.spot)

  pub refreshed-Spotted :
      (rz : Bool) (id : String) (m : Machine) (i : Instance)
      → InShape rz i
      → i.capacity_type ≡ cap id
      → Spotted id m
      → Spotted id (refreshed m i)
  unfolding refreshed
  refreshed-Spotted rz id m i h e s =
      (s.0, (unfold refreshed in refreshed-SpotFits rz m i h (e ∙ sym s.0) s.1))
