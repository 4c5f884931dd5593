-- ===== src/Kit/Lifecycle.antt =====
-- providerkit/machine.go: the states of a machine, the capacity types, and the four kinds of
-- transition with the edges of the lifecycle.
pub mod Edges
pub mod Names
use bigfleet_providers.Prelude.{String, Bool, true, false, ite, String-discrete}

pub data State : Type 0 where
  unspecified speculative creating idle configuring configured draining deleting failed : State

unfoldable pub State-discrete : Discrete State
State-discrete = hlevel

pub data CapacityType : Type 0 where
  unspecified bare_metal reserved on_demand spot : CapacityType

pub data Kind : Type 0 where
  create configure drain delete : Kind

unfoldable pub Kind-discrete : Discrete Kind
Kind-discrete = hlevel

-- `State.String` and `MarshalText`.
unfoldable pub state_name : State → String
state_name State.speculative = "Speculative"
state_name State.creating = "Creating"
state_name State.idle = "Idle"
state_name State.configuring = "Configuring"
state_name State.configured = "Configured"
state_name State.draining = "Draining"
state_name State.deleting = "Deleting"
state_name State.failed = "Failed"
state_name State.unspecified = "Unspecified"

-- `State.UnmarshalText`.
unfoldable pub state_of_name : String → State
unfolding String-discrete
state_of_name s = ite (String-discrete s "Speculative") State.speculative (
    ite (String-discrete s "Creating") State.creating (
      ite (String-discrete s "Idle") State.idle (
        ite (String-discrete s "Configuring") State.configuring (
          ite (String-discrete s "Configured") State.configured (
            ite (String-discrete s "Draining") State.draining (
              ite (String-discrete s "Deleting") State.deleting
                (ite (String-discrete s "Failed") State.failed State.unspecified)))))))

-- `CapacityType.String` and `MarshalText`.
unfoldable pub capacity_name : CapacityType → String
capacity_name CapacityType.bare_metal = "BareMetal"
capacity_name CapacityType.reserved = "Reserved"
capacity_name CapacityType.on_demand = "OnDemand"
capacity_name CapacityType.spot = "Spot"
capacity_name CapacityType.unspecified = "Unspecified"

-- `CapacityType.UnmarshalText`.
unfoldable pub capacity_of_name : String → CapacityType
unfolding String-discrete
capacity_of_name s = ite (String-discrete s "BareMetal") CapacityType.bare_metal (
    ite (String-discrete s "Reserved") CapacityType.reserved (
      ite (String-discrete s "OnDemand") CapacityType.on_demand
        (ite (String-discrete s "Spot") CapacityType.spot CapacityType.unspecified)))

-- `kind.String`.
unfoldable pub kind_name : Kind → String
kind_name Kind.create = "create"
kind_name Kind.configure = "configure"
kind_name Kind.drain = "drain"
kind_name Kind.delete = "delete"

-- `kindFromString`.
unfoldable pub kind_of_name : String → Kind
unfolding String-discrete
kind_of_name s = ite (String-discrete s "configure") Kind.configure (
    ite (String-discrete s "drain") Kind.drain
      (ite (String-discrete s "delete") Kind.delete Kind.create))

-- The two results of `kind.targets`.
unfoldable pub transitional : Kind → State
transitional Kind.create = State.creating
transitional Kind.configure = State.configuring
transitional Kind.drain = State.draining
transitional Kind.delete = State.deleting

unfoldable pub stable : Kind → State
stable Kind.create = State.idle
stable Kind.configure = State.configured
stable Kind.drain = State.idle
stable Kind.delete = State.speculative

abbrev is_speculative : State → Bool
is_speculative State.speculative = true
is_speculative _ = false

abbrev is_idle : State → Bool
is_idle State.idle = true
is_idle _ = false

abbrev is_configured : State → Bool
is_configured State.configured = true
is_configured _ = false

-- `canStart`.
unfoldable pub can_start : State → Kind → Bool
can_start s Kind.create = is_speculative s
can_start s Kind.configure = is_idle s
can_start s Kind.drain = is_configured s
can_start s Kind.delete = is_idle s
