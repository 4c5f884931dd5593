-- ===== src/Kit/Sound.antt =====
-- What holds of every record that the kit keeps, in each state of its lifecycle, and that the
-- operations on a record keep it.
pub mod Inventory
pub mod Reports
pub mod Transitions
pub mod Spots
use bigfleet_providers.Prelude.{
  String, Bool, true, false, Option, none, some, Result, ok, err, ◌≡◌, ◌≢◌, refl, sym, subst, arith,
  if◌then◌else◌, Bool-cases, inl, inr,
}
use bigfleet_providers.Prelude.Float.{Float, eq_float}
use bigfleet_providers.Kit.Lifecycle.{State, CapacityType, Kind, transitional, stable, can_start}
use bigfleet_providers.Kit.Lifecycle.Edges.{origin, can_start-origin}
use bigfleet_providers.Kit.Errors.{Error}
use bigfleet_providers.Kit.Machine.{StringMap, HostRef, Machine, host_empty}
use bigfleet_providers.Kit.Instance.{
  Instance, CreateInstanceResult, validate, effective_state, to_machine,
}
use bigfleet_providers.Kit.Instance.Shape.{
  PriceFits, InUnitRange, RestFits, InShape, validate-InShape,
}
use bigfleet_providers.Kit.Operation.{
  Operation, OpResult, kind_of, pre_effect, create_effect, drain_effect, delete_effect,
}

-- There is a host in every state but those of a slot; a failed machine may have one.
abbrev pub HostFits : State → HostRef → Type 0
HostFits State.unspecified h = ⊥
HostFits State.speculative h = host_empty h ≡ true
HostFits State.creating h = host_empty h ≡ true
HostFits State.failed h = Unit
HostFits _ h = host_empty h ≡ false

-- Without a binding there is neither a cluster nor metadata.
abbrev pub IsUnbound : String → StringMap → Type 0
IsUnbound cluster md = (cluster ≡ "") × (md ≡ none)

-- The binding is there from Configure until the end of Drain; a failed machine may keep one.
abbrev pub BindingFits : State → String → StringMap → Type 0
BindingFits State.unspecified cluster md = IsUnbound cluster md
BindingFits State.speculative cluster md = IsUnbound cluster md
BindingFits State.creating cluster md = IsUnbound cluster md
BindingFits State.idle cluster md = IsUnbound cluster md
BindingFits State.deleting cluster md = IsUnbound cluster md
BindingFits _ cluster md = Unit

-- There is an error in the failed state, and only there.
abbrev pub ErrorFits : State → Option Error → Type 0
ErrorFits State.failed e = e ≢ none
ErrorFits _ e = e ≡ none

-- The fields as `validate` asks for them, but for the probability of SPOT capacity, which is in
-- Spots, and the lifecycle fields as they fit the state.
pub record Sound (rz : Bool) (key : String) (m : Machine) : Type 0 where
  pub key_is_id : m.id ≡ key
  pub id : m.id ≢ ""
  pub instance_type : m.instance_type ≢ ""
  pub capacity_type : m.capacity_type ≢ CapacityType.unspecified
  pub zone : rz ≡ true → m.zone ≢ ""
  pub price : PriceFits m.price_per_hour
  pub probability : InUnitRange m.interruption_probability
  pub host : HostFits m.state m.host
  pub binding : BindingFits m.state m.cluster m.shard_metadata
  pub error : ErrorFits m.state m.last_error

module _ (rz : Bool) (id : String) where
  -- A record that changes in its lifecycle fields only.
  pub Sound-change :
      {m : Machine} (state : State) (host : HostRef) (cluster : String) (md : StringMap)
      (resources allocatable : StringMap) (last_error : Option Error)
      → Sound rz id m
      → HostFits state host
      → BindingFits state cluster md
      → ErrorFits state last_error
      → Sound rz id (record m {
        state = state;
        host = host;
        cluster = cluster;
        shard_metadata = md;
        resources = resources;
        allocatable = allocatable;
        last_error = last_error;
      })
  Sound-change state host cluster md resources allocatable last_error s h b e = record {
    key_is_id = s.key_is_id;
    id = s.id;
    instance_type = s.instance_type;
    capacity_type = s.capacity_type;
    zone = s.zone;
    price = s.price;
    probability = s.probability;
    host = h;
    binding = b;
    error = e;
  }

-- What the three lifecycle fields are in a known state.
module _ {rz : Bool} {id : String} {m : Machine} (s : Sound rz id m) {t : State}
    (e : m.state ≡ t) where
  pub host_in : HostFits t m.host
  host_in = subst (λ u. HostFits u m.host) e s.host

  pub binding_in : BindingFits t m.cluster m.shard_metadata
  binding_in = subst (λ u. BindingFits u m.cluster m.shard_metadata) e s.binding

  pub error_in : ErrorFits t m.last_error
  error_in = subst (λ u. ErrorFits u m.last_error) e s.error
