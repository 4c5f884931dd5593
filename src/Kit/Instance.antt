-- ===== src/Kit/Instance.antt =====
-- providerkit/backend.go: what a backend reports and is asked for, the check of a reported
-- instance, and the interface of a backend.
pub mod Shape
use bigfleet_providers.Prelude.{
  ℕ, ℤ, String, Bool, true, false, not, ◌&&◌, ◌||◌, Option, none, some, List, Result, ok, err,
  if◌then◌else◌,
}
use bigfleet_providers.Prelude.Float.{Float, zero_float, one_float, is_nan, lt_float, le_float}
use bigfleet_providers.Kit.Lifecycle.{State, CapacityType}
use bigfleet_providers.Kit.Fence.{is_empty}
use bigfleet_providers.Kit.Errors.{Error, Defect}
use bigfleet_providers.Kit.Machine.{StringMap, HostRef, Machine, host_empty, clone_map}

pub record Instance : Type 0 where
  pub id : String
  pub host : HostRef
  pub state : State
  pub instance_type : String
  pub zone : String
  pub capacity_type : CapacityType
  pub price_per_hour : Float
  pub interruption_probability : Float
  pub resources : StringMap
  pub allocatable : StringMap
  pub labels : StringMap

pub record CreateInstanceRequest : Type 0 where
  pub machine : Machine
  pub operation_id : String

pub record CreateInstanceResult : Type 0 where
  pub host : HostRef
  pub resources : StringMap
  pub allocatable : StringMap

pub record ConfigureInstanceRequest : Type 0 where
  pub machine : Machine
  pub cluster_id : String
  pub bootstrap_blob : List ℕ
  pub operation_id : String

pub record ConfirmNodeReadyRequest : Type 0 where
  pub machine : Machine
  pub cluster_id : String
  pub operation_id : String

pub record DrainInstanceRequest : Type 0 where
  pub machine : Machine
  pub grace_period_seconds : ℤ
  pub operation_id : String

pub record DeleteInstanceRequest : Type 0 where
  pub machine : Machine
  pub operation_id : String

-- The interfaces `Backend`, `Deleter` and `ReadinessChecker`, over the state `B` of the substrate.
-- A method returns its result with the state that it leaves; an optional capability is an `Option`.
pub record Backend (B : Type 0) : Type 0 where
  pub describe : B → Result Error (List Instance)
  pub create_instance : CreateInstanceRequest → B → Result Error CreateInstanceResult × B
  pub configure_instance : ConfigureInstanceRequest → B → Result Error (Unit {0}) × B
  pub drain_instance : DrainInstanceRequest → B → Result Error (Unit {0}) × B
  pub delete_instance : Option (DeleteInstanceRequest → B → Result Error (Unit {0}) × B)
  pub confirm_node_ready : Option (ConfirmNodeReadyRequest → B → Result Error (Unit {0}) × B)

abbrev is_unspecified : State → Bool
is_unspecified State.unspecified = true
is_unspecified _ = false

-- `Instance.effectiveState`.
unfoldable pub effective_state : Instance → State
effective_state i =
    if not (is_unspecified i.state)
    then i.state
    else if host_empty i.host
    then State.speculative
    else State.idle

abbrev no_capacity : CapacityType → Bool
no_capacity CapacityType.unspecified = true
no_capacity _ = false

abbrev pub is_spot : CapacityType → Bool
is_spot CapacityType.spot = true
is_spot _ = false

-- The `switch` over the effective state at the end of `validate`.
check_host : State → Instance → Option Defect
check_host State.speculative i =
    if not (host_empty i.host) then some (Defect.speculative_with_host i.id) else none
check_host State.idle i = if host_empty i.host then some (Defect.idle_without_host i.id) else none
check_host _ i = some (Defect.not_resting i.id i.state)

-- `Instance.validate`: the first defect, in the order of the source.
unfoldable pub validate : Bool → Instance → Option Defect
unfolding check_host
validate require_zone i =
    if is_empty i.id
    then some Defect.empty_id
    else if is_empty i.instance_type
    then some (Defect.no_instance_type i.id)
    else if no_capacity i.capacity_type
    then some (Defect.no_capacity_type i.id)
    else if require_zone && is_empty i.zone
    then some (Defect.no_zone i.id)
    else if is_nan i.price_per_hour || lt_float i.price_per_hour zero_float
    then some (Defect.bad_price i.id i.price_per_hour)
    else if is_nan i.interruption_probability
        || (lt_float i.interruption_probability zero_float
            || lt_float one_float i.interruption_probability)
    then some (Defect.bad_probability i.id i.interruption_probability)
    else if is_spot i.capacity_type && le_float i.interruption_probability zero_float
    then some (Defect.spot_without_probability i.id)
    else check_host (effective_state i) i

-- `Instance.toMachine`.
unfoldable pub to_machine : Instance → Machine
to_machine i = record {
  id = i.id;
  state = effective_state i;
  host = i.host;
  instance_type = i.instance_type;
  zone = i.zone;
  capacity_type = i.capacity_type;
  price_per_hour = i.price_per_hour;
  interruption_probability = i.interruption_probability;
  resources = clone_map i.resources;
  allocatable = clone_map i.allocatable;
  labels = clone_map i.labels;
  cluster = "";
  shard_metadata = none;
  last_error = none;
}
