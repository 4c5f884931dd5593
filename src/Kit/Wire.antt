-- ===== src/Kit/Wire.antt =====
-- providerkit/convert.go: the kit's records as messages of the wire. The enums of the wire are
-- open: a number that names no value is `unknown`.
use bigfleet_providers.Prelude.{ℤ, String, Option, none, some, [], ◌∷◌, if◌then◌else◌}
use bigfleet_providers.Prelude.Float.{Float}
use bigfleet_providers.Kit.Lifecycle.{State, CapacityType}
use bigfleet_providers.Kit.Errors.{Error}
use bigfleet_providers.Kit.Machine.{StringMap, HostRef, Machine, host_empty, clone_map}

pub data MachineState : Type 0 where
  unspecified speculative creating idle configuring configured draining deleting failed :
      MachineState
  unknown : ℤ → MachineState

pub data WireCapacity : Type 0 where
  unspecified bare_metal reserved on_demand spot : WireCapacity
  unknown : ℤ → WireCapacity

-- The message `pb.Machine`; `resources` and `allocatable` are messages around a map.
pub record MachineMessage : Type 0 where
  pub id : String
  pub state : MachineState
  pub host : Option HostRef
  pub instance_type : String
  pub zone : String
  pub capacity_type : WireCapacity
  pub price_per_hour : Float
  pub interruption_probability : Float
  pub resources : Option StringMap
  pub allocatable : Option StringMap
  pub labels : StringMap
  pub cluster : String
  pub shard_metadata : StringMap
  pub last_error : Option Error

unfoldable pub state_to_proto : State → MachineState
state_to_proto State.speculative = MachineState.speculative
state_to_proto State.creating = MachineState.creating
state_to_proto State.idle = MachineState.idle
state_to_proto State.configuring = MachineState.configuring
state_to_proto State.configured = MachineState.configured
state_to_proto State.draining = MachineState.draining
state_to_proto State.deleting = MachineState.deleting
state_to_proto State.failed = MachineState.failed
state_to_proto State.unspecified = MachineState.unspecified

unfoldable pub state_from_proto : MachineState → State
state_from_proto MachineState.speculative = State.speculative
state_from_proto MachineState.creating = State.creating
state_from_proto MachineState.idle = State.idle
state_from_proto MachineState.configuring = State.configuring
state_from_proto MachineState.configured = State.configured
state_from_proto MachineState.draining = State.draining
state_from_proto MachineState.deleting = State.deleting
state_from_proto MachineState.failed = State.failed
state_from_proto _ = State.unspecified

unfoldable pub capacity_to_proto : CapacityType → WireCapacity
capacity_to_proto CapacityType.bare_metal = WireCapacity.bare_metal
capacity_to_proto CapacityType.reserved = WireCapacity.reserved
capacity_to_proto CapacityType.on_demand = WireCapacity.on_demand
capacity_to_proto CapacityType.spot = WireCapacity.spot
capacity_to_proto CapacityType.unspecified = WireCapacity.unspecified

-- `CapacityFromProto`.
unfoldable pub capacity_from_proto : WireCapacity → CapacityType
capacity_from_proto WireCapacity.bare_metal = CapacityType.bare_metal
capacity_from_proto WireCapacity.reserved = CapacityType.reserved
capacity_from_proto WireCapacity.on_demand = CapacityType.on_demand
capacity_from_proto WireCapacity.spot = CapacityType.spot
capacity_from_proto _ = CapacityType.unspecified

-- `if len(m) > 0 { … = &pb.Resources{Resources: cloneMap(m)} }`
resources_message : StringMap → Option StringMap
resources_message none = none
resources_message (some []) = none
resources_message (some (e ∷ m)) = some (clone_map (some (e ∷ m)))

-- `machineToProto`.
unfoldable pub machine_to_proto : Machine → MachineMessage
unfolding resources_message
machine_to_proto m = record {
  id = m.id;
  state = state_to_proto m.state;
  host = if host_empty m.host then none else some m.host;
  instance_type = m.instance_type;
  zone = m.zone;
  capacity_type = capacity_to_proto m.capacity_type;
  price_per_hour = m.price_per_hour;
  interruption_probability = m.interruption_probability;
  resources = resources_message m.resources;
  allocatable = resources_message m.allocatable;
  labels = clone_map m.labels;
  cluster = m.cluster;
  shard_metadata = clone_map m.shard_metadata;
  last_error = m.last_error;
}
