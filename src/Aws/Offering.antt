-- ===== src/Aws/Offering.antt =====
-- providers/aws/offering.go: the shapes of capacity that the provider may provision.
use bigfleet_providers.Prelude.{
  ℕ, suc, ◌+◌, ◌/◌, ◌%◌, ℤ, pos, negsuc, String, ◌||◌, Option, none, some, List, [], ◌∷◌, Result,
  ok, err, if◌then◌else◌, leb, ltb, ◌≡◌, arith,
}
use bigfleet_providers.Prelude.Text.{has_prefix, lower_is}
use bigfleet_providers.Kit.Errors.{Error}
use bigfleet_providers.Kit.Lifecycle.{CapacityType}
use bigfleet_providers.Kit.Machine.{StringMap}

-- `offering`.
pub record Offering : Type 0 where
  pub instance_type : String
  pub zone : String
  pub capacity : String
  pub count : ℤ
  pub resources : StringMap
  pub labels : StringMap

-- `capacityType`.
unfoldable pub capacity_type : Offering → Result Error CapacityType
capacity_type o =
    if lower_is o.capacity "on_demand"
      || lower_is o.capacity "on-demand"
      || lower_is o.capacity "ondemand"
      || lower_is o.capacity ""
    then ok CapacityType.on_demand
    else if lower_is o.capacity "spot"
    then ok CapacityType.spot
    else if lower_is o.capacity "reserved"
    then ok CapacityType.reserved
    else if lower_is o.capacity "bare_metal"
        || lower_is o.capacity "bare-metal"
        || lower_is o.capacity "metal"
    then ok CapacityType.bare_metal
    else err (Error.other "unknown capacity_type")

abbrev default_resources : StringMap
default_resources = some (("cpu", "1") ∷ ("memory", "2Gi") ∷ [])

-- The slots of bucket `i` when `n` are spread over four.
share : ℕ → ℕ → ℕ
share n i = if ltb i (n % 4) then suc (n / 4) else n / 4

-- The number of slots: 16 where none or a negative one is asked for.
abbrev pub seed_slots : ℤ → ℕ
seed_slots (pos n) = if leb n 0 then 16 else n
seed_slots (negsuc n) = 16

abbrev default_offering : String → String → String → ℕ → Offering
default_offering instance_type zone capacity count = record {
  instance_type = instance_type;
  zone = zone;
  capacity = capacity;
  count = pos count;
  resources = default_resources;
  labels = none;
}

-- `defaultOfferings`.
unfoldable pub default_offerings : ℤ → String → String → List Offering
unfolding share
default_offerings seed_count zone_a zone_b =
    let n = seed_slots seed_count in
    default_offering "m6i.large" zone_a "on_demand" (share n 0)
    ∷ default_offering "c7g.xlarge" zone_a "spot" (share n 1)
    ∷ default_offering "m6i.large" zone_b "on_demand" (share n 2)
    ∷ default_offering "c7g.xlarge" zone_b "spot" (share n 3)
    ∷ []

-- `acceleratorLabel`.
unfoldable pub accelerator_label : String → Option String
accelerator_label t =
    if has_prefix t "g5." || has_prefix t "g6."
    then some "nvidia-a10g"
    else if has_prefix t "p4" || has_prefix t "p5"
    then some "nvidia-a100"
    else none

-- The slots of a list of offerings.
abbrev pub slots_of : List Offering → ℕ
slots_of [] = 0
slots_of (o ∷ os) = slots o.count + slots_of os
  where
    slots : ℤ → ℕ
    slots (pos n) = n
    slots (negsuc n) = 0

-- The default offerings have as many slots as were asked for, 16 where none were.
pub default_offerings-slots :
    (seed_count : ℤ) (zone_a zone_b : String)
    → slots_of (default_offerings seed_count zone_a zone_b) ≡ seed_slots seed_count
unfolding default_offerings
default_offerings-slots seed_count zone_a zone_b = spread (seed_slots seed_count)
  where
    spread : (n : ℕ) → share n 0 + (share n 1 + (share n 2 + (share n 3 + 0))) ≡ n
    spread n = ground arith
