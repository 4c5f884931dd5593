-- ===== src/Aws/Backend.antt =====
-- providers/aws/backend.go: the backend of the kit over EC2. What the code keeps behind pointers
-- (prices, interruptions, resolved types) and the region are the state; `order` is the order in
-- which the runtime goes through a map. An error that `fmt.Errorf` wraps is the error itself.
pub mod Shape
pub mod Described
pub mod Answers
pub mod Slots
pub mod Ids
pub mod Distinct
pub mod Start
use bigfleet_providers.Prelude.{
  ℕ, zero, suc, ℤ, pos, negsuc, String, Bool, true, false, Option, none, some, List, [], ◌∷◌, ◌++◌,
  map, get, insert, remove, Result, ok, err, ◌>>=◌, if◌then◌else◌,
}
use bigfleet_providers.Prelude.Float.{Float, nan}
use bigfleet_providers.Prelude.Text.{padded}
use bigfleet_providers.Kit.Errors.{Error}
use bigfleet_providers.Kit.Fence.{is_empty}
use bigfleet_providers.Kit.Lifecycle.{State, CapacityType, capacity_name}
use bigfleet_providers.Kit.Machine.{StringMap, no_host_ref, clone_map}
use bigfleet_providers.Kit.Instance.{Instance}
use bigfleet_providers.Kit.Server.{string_key}
use bigfleet_providers.Aws.Ec2.{Ec2Instance, Ec2Client, parse_capacity_tag}
use bigfleet_providers.Aws.Offering.{Offering, capacity_type, accelerator_label}
use bigfleet_providers.Aws.Interruption.{Interruption, probability}
use bigfleet_providers.Aws.InstanceTypes.{Cache, new_cache, allocatable}
use bigfleet_providers.Aws.Pricing.{Pricing, price}

-- `awsBackend`, what is fixed.
pub record AwsBackend (E : Type 0) : Type 0 where
  pub provider_name : String
  pub region : String
  pub ec2 : Ec2Client E
  pub offerings : List Offering
  pub base_user_data : List ℕ

-- `awsBackend`, what changes, with the region that it drives.
pub record AwsState (E : Type 0) : Type 0 where
  pub ec2 : E
  pub pricing : Pricing
  pub interruption : Interruption
  pub instance_types : Cache

-- The loop over the offerings in `newAWSBackend`.
unfoldable pub check_offering : Result Error CapacityType → Offering → Result Error (Unit {0})
check_offering (err e) off = err e
check_offering (ok c) off =
    if is_empty off.instance_type
    then err (Error.other "offering with empty instance_type")
    else if is_empty off.zone
    then err (Error.other "offering with empty zone")
    else ok tt

unfoldable pub check_offerings : List Offering → Result Error (Unit {0})
unfolding check_offering
check_offerings [] = ok tt
check_offerings (off ∷ offs) = check_offering (capacity_type off) off >>= λ u. check_offerings offs

-- `newAWSBackend`.
unfoldable pub new_aws_backend :
    {E : Type 0} → AwsBackend E → Pricing → Interruption → E → Result Error (AwsState E)
new_aws_backend b pr inter e = elim b.offerings [
  | [] ↦ err (Error.other "no offerings configured")
  | off ∷ offs ↦ do
    u ← check_offerings (off ∷ offs)
    ok (record { ec2 = e; pricing = pr; interruption = inter; instance_types = new_cache })
]

-- `capacity, _ := off.capacityType()`
abbrev pub capacity_or_zero : Result Error CapacityType → CapacityType
capacity_or_zero (ok c) = c
capacity_or_zero (err e) = CapacityType.unspecified

-- `a/rest`
abbrev pub joined : String → String → String
joined a rest = Prim.Native.String.◌++◌ a (Prim.Native.String.◌++◌ "/" rest)

-- `slotID`.
unfoldable pub slot_id : String → CapacityType → Offering → ℤ → String
slot_id provider_name capacity off i =
    joined provider_name
      (joined (capacity_name capacity) (joined off.instance_type (joined off.zone (padded 3 i))))

-- A probability that is not published: an index out of range, which would panic.
abbrev pub published : Option Float → Float
published none = nan
published (some p) = p

with_accelerator : Option String → StringMap → StringMap
with_accelerator none labels = labels
with_accelerator (some acc) none = some (("bigfleet.io/accelerator", acc) ∷ [])
with_accelerator (some acc) (some labels) = some (insert "bigfleet.io/accelerator" acc labels)

-- `slotLabels`.
unfoldable pub slot_labels : Offering → StringMap
unfolding with_accelerator
slot_labels off = with_accelerator (accelerator_label off.instance_type) (clone_map off.labels)

-- The `switch` over the managed instances in `Describe`: the owners of slots, and the orphans.
unfoldable pub classify :
    List Ec2Instance → List (String × Ec2Instance) → List (String × Ec2Instance) × List Ec2Instance
classify [] by_slot = (by_slot, [])
classify (m ∷ managed) by_slot = elim (is_empty m.machine_id) [
  | false ↦ classify managed (insert m.machine_id m by_slot)
  | true ↦
      let (owners, orphans) = classify managed by_slot in
      (owners, if m.running then m ∷ orphans else orphans)
]

module _ {E : Type 0} (b : AwsBackend E) where
  unfoldable pub slot : CapacityType → Offering → ℕ → AwsState E → Instance
  slot capacity off i s =
      let id = slot_id b.provider_name capacity off (pos i) in
      record {
        id = id;
        host = no_host_ref;
        state = State.speculative;
        instance_type = off.instance_type;
        zone = off.zone;
        capacity_type = capacity;
        price_per_hour = price off.instance_type off.zone capacity s.pricing;
        interruption_probability =
            published (probability id off.instance_type capacity s.interruption);
        resources = clone_map off.resources;
        allocatable = allocatable off.instance_type s.instance_types;
        labels = slot_labels off;
      }

  -- `for i := 0; i < off.Count; i++`, the first `n` rounds.
  unfoldable pub first_slots : ℕ → CapacityType → Offering → AwsState E → List Instance
  first_slots zero capacity off s = []
  first_slots (suc n) capacity off s = first_slots n capacity off s ++ (slot capacity off n s ∷ [])

  unfoldable pub counted_slots : ℤ → CapacityType → Offering → AwsState E → List Instance
  counted_slots (pos n) capacity off s = first_slots n capacity off s
  counted_slots (negsuc n) capacity off s = []

  unfoldable pub slots_of : List Offering → AwsState E → List Instance
  unfolding counted_slots
  slots_of [] s = []
  slots_of (off ∷ offs) s =
      counted_slots off.count (capacity_or_zero (capacity_type off)) off s ++ slots_of offs s

  -- `speculativeSlots`.
  unfoldable pub speculative_slots : AwsState E → List Instance
  unfolding slots_of
  speculative_slots s = slots_of b.offerings s

  -- The capacity type of the tag, or that of the lifecycle of the instance.
  unfoldable pub capacity_of : CapacityType → Bool → CapacityType
  capacity_of CapacityType.unspecified spot =
      if spot then CapacityType.spot else CapacityType.on_demand
  capacity_of c spot = c

  -- `instanceToIdle`.
  unfoldable pub instance_to_idle : String → Ec2Instance → AwsState E → Instance
  unfolding capacity_of
  instance_to_idle machine_id inst s =
      let capacity = capacity_of (parse_capacity_tag inst.capacity) inst.spot in
      record {
        id = machine_id;
        host = record { provider = b.provider_name; ref = inst.instance_id };
        state = State.idle;
        instance_type = inst.instance_type;
        zone = inst.zone;
        capacity_type = capacity;
        price_per_hour = price inst.instance_type inst.zone capacity s.pricing;
        interruption_probability =
            published (probability machine_id inst.instance_type capacity s.interruption);
        resources = none;
        allocatable = allocatable inst.instance_type s.instance_types;
        labels = none;
      }

  unfoldable pub owned_slot : Option Ec2Instance → Instance → Instance
  owned_slot none i = i
  owned_slot (some inst) i = record i {
    state = State.idle;
    host = record { provider = b.provider_name; ref = inst.instance_id };
  }

  -- The loop over the slots in `Describe`, and the owners that are left.
  unfoldable pub place :
      List Instance → List (String × Ec2Instance) → List Instance × List (String × Ec2Instance)
  unfolding owned_slot
  place [] by_slot = ([], by_slot)
  place (i ∷ slots) by_slot =
      let (out, left) = place slots (remove i.id by_slot) in
      (owned_slot (get i.id by_slot) i ∷ out, left)

  module _ (order : List (String × Ec2Instance) → List (String × Ec2Instance)) where
    unfoldable pub described :
        Result Error (List Ec2Instance) → AwsState E → Result Error (List Instance)
    described (err e) s = err e
    described (ok managed) s =
        let (by_slot, orphans) = classify managed [] in
        let (out, left) = place (speculative_slots s) by_slot in
        ok (
          out
          ++ (map (λ e. instance_to_idle e.0 e.1 s) (order left)
              ++ map (λ inst. instance_to_idle inst.instance_id inst s) orphans))

    -- `Describe`.
    unfoldable pub describe : AwsState E → Result Error (List Instance)
    unfolding described
    describe s = described (b.ec2.describe_managed s.ec2) s
