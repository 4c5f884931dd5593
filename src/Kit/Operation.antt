-- ===== src/Kit/Operation.antt =====
-- providerkit/server.go: the backend work of the four mutating calls. A value of `Operation` stands
-- for the closures that a handler gives to `dispatch`, with what they capture.
pub mod Results
pub mod Outcomes
use bigfleet_providers.Prelude.{
  ℕ, ℤ, String, Option, none, some, List, Result, ok, err, if◌then◌else◌,
}
use bigfleet_providers.Kit.Lifecycle.{Kind}
use bigfleet_providers.Kit.Errors.{Error}
use bigfleet_providers.Kit.Machine.{StringMap, Machine, no_host_ref, host_empty, clone_map}
use bigfleet_providers.Kit.Instance.{
  Backend, CreateInstanceResult, CreateInstanceRequest, ConfigureInstanceRequest,
  ConfirmNodeReadyRequest, DrainInstanceRequest, DeleteInstanceRequest,
}

-- `configure` captures the cluster id, the bootstrap blob and the copied shard_metadata; `drain`
-- the grace period.
pub data Operation : Type 0 where
  create : Operation
  configure : String → List ℕ → StringMap → Operation
  drain : ℤ → Operation
  delete : Operation

unfoldable pub kind_of : Operation → Kind
kind_of Operation.create = Kind.create
kind_of (Operation.configure cluster_id blob md) = Kind.configure
kind_of (Operation.drain grace) = Kind.drain
kind_of Operation.delete = Kind.delete

-- `preEffect`: nil but for Configure, which binds the machine.
unfoldable pub pre_effect : Operation → Machine → Machine
pre_effect (Operation.configure cluster_id blob md) m = record m {
  cluster = cluster_id;
  shard_metadata = md;
}
pre_effect _ m = m

-- What a `backendOp` returns: an error, or the effect to apply, which may be nil.
abbrev pub OpResult : Type 0
OpResult = Result Error (Option (Machine → Machine))

refine : StringMap → StringMap → StringMap
refine none old = old
refine (some m) old = clone_map (some m)

unfoldable pub create_effect : CreateInstanceResult → Machine → Machine
unfolding refine
create_effect res dst = record dst {
  host = res.host;
  resources = refine res.resources dst.resources;
  allocatable = refine res.allocatable dst.allocatable;
}

unfoldable pub drain_effect : Machine → Machine
drain_effect dst = record dst { cluster = ""; shard_metadata = none }

unfoldable pub delete_effect : Machine → Machine
delete_effect dst = record dst { host = no_host_ref }

create_result : Result Error CreateInstanceResult → OpResult
create_result (err e) = err e
create_result (ok res) =
    if host_empty res.host then err Error.no_host else ok (some (create_effect res))

effect_result : (Machine → Machine) → Result Error (Unit {0}) → OpResult
effect_result f (err e) = err e
effect_result f (ok u) = ok (some f)

readiness_result : Result Error (Unit {0}) → OpResult
readiness_result (err e) = err (Error.node_readiness e)
readiness_result (ok u) = ok none

module _ {B : Type 0} (backend : Backend B) where
  -- The readiness gate, after a `ConfigureInstance` that succeeded.
  confirm :
      Option (ConfirmNodeReadyRequest → B → Result Error (Unit {0}) × B)
      → ConfirmNodeReadyRequest
      → Result Error (Unit {0})
      → B
      → OpResult × B
  confirm rc req (err e) b = (err e, b)
  confirm none req (ok u) b = (ok none, b)
  confirm (some rc) req (ok u) b = let (r, b') = rc req b in (readiness_result r, b')

  -- `Delete` does not dispatch without a `Deleter`, so the first clause is not reached.
  delete_with :
      Option (DeleteInstanceRequest → B → Result Error (Unit {0}) × B)
      → DeleteInstanceRequest
      → B
      → OpResult × B
  delete_with none req b = (err (Error.other "nil deleter"), b)
  delete_with (some d) req b = let (r, b') = d req b in (effect_result delete_effect r, b')

  -- The `op` closure of the handler, run on the state of the substrate.
  unfoldable pub run_op : Operation → Machine → String → B → OpResult × B
  unfolding create_result effect_result readiness_result confirm delete_with
  run_op Operation.create m op_id b =
      let (r, b') = backend.create_instance (record { machine = m; operation_id = op_id }) b in
      (create_result r, b')
  run_op (Operation.configure cluster_id blob md) m op_id b =
      let (r, b') =
        backend.configure_instance
          (record {
            machine = m;
            cluster_id = cluster_id;
            bootstrap_blob = blob;
            operation_id = op_id;
          })
          b in
      confirm backend.confirm_node_ready
        (record { machine = m; cluster_id = cluster_id; operation_id = op_id }) r b'
  run_op (Operation.drain grace) m op_id b =
      let (r, b') =
        backend.drain_instance
          (record { machine = m; grace_period_seconds = grace; operation_id = op_id }) b in
      (effect_result drain_effect r, b')
  run_op Operation.delete m op_id b =
      delete_with backend.delete_instance (record { machine = m; operation_id = op_id }) b
