-- ===== src/Kit/Operation/Outcomes.antt =====
-- What becomes of a machine by the work of its transition, told by the answers of the backend.
use bigfleet_providers.Prelude.{
  ℕ, ℤ, String, true, false, Option, none, some, List, Result, ok, err, ◌≡◌, refl, Bool-cases, inl,
  inr,
}
use bigfleet_providers.Kit.Errors.{Error}
use bigfleet_providers.Kit.Lifecycle.{State, Kind, stable}
use bigfleet_providers.Kit.Machine.{StringMap, Machine, no_host_ref, host_empty, clone_map_lem}
use bigfleet_providers.Kit.Instance.{
  Backend, CreateInstanceResult, CreateInstanceRequest, ConfigureInstanceRequest,
  ConfirmNodeReadyRequest, DrainInstanceRequest, DeleteInstanceRequest,
}
use bigfleet_providers.Kit.Operation.{
  Operation, kind_of, refine, create_effect, drain_effect, delete_effect, create_result,
  effect_result, readiness_result, confirm, delete_with, run_op,
}
use bigfleet_providers.Kit.Dispatch.{settle}

-- A map that is given replaces the old one.
abbrev given : StringMap → StringMap → StringMap
given none old = old
given (some m) old = some m

refine-given : (m old : StringMap) → refine m old ≡ given m old
unfolding refine
refine-given none old = refl
refine-given (some m) old = clone_map_lem (some m)

abbrev failed_with : Error → Machine → Machine
failed_with e m = record m { state = State.failed; last_error = some e }

module _ {B : Type 0} (backend : Backend B) (snap : Machine) (op_id : String) where
  abbrev create_request : CreateInstanceRequest
  create_request = record { machine = snap; operation_id = op_id }

  abbrev configure_request : String → List ℕ → ConfigureInstanceRequest
  configure_request cluster_id blob = record {
    machine = snap;
    cluster_id = cluster_id;
    bootstrap_blob = blob;
    operation_id = op_id;
  }

  abbrev ready_request : String → ConfirmNodeReadyRequest
  ready_request cluster_id = record {
    machine = snap;
    cluster_id = cluster_id;
    operation_id = op_id;
  }

  abbrev drain_request : ℤ → DrainInstanceRequest
  drain_request grace = record {
    machine = snap;
    grace_period_seconds = grace;
    operation_id = op_id;
  }

  abbrev delete_request : DeleteInstanceRequest
  delete_request = record { machine = snap; operation_id = op_id }

  -- The work of an operation takes the machine `m` and the substrate `b` to a machine and a
  -- substrate.
  pub data Works (m : Machine) (b : B) : Operation → Machine → B → Type 0 where
    create_failed :
        (e : Error) (b' : B)
        → backend.create_instance create_request b ≡ (err e, b')
        → Works m b Operation.create (failed_with e m) b'
    hostless :
        (res : CreateInstanceResult) (b' : B)
        → backend.create_instance create_request b ≡ (ok res, b')
        → host_empty res.host ≡ true
        → Works m b Operation.create (failed_with Error.no_host m) b'
    created :
        (res : CreateInstanceResult) (b' : B)
        → backend.create_instance create_request b ≡ (ok res, b')
        → host_empty res.host ≡ false
        → Works m b Operation.create
            (record m {
              state = State.idle;
              host = res.host;
              resources = given res.resources m.resources;
              allocatable = given res.allocatable m.allocatable;
            })
            b'
    configure_failed :
        (cluster_id : String) (blob : List ℕ) (md : StringMap) (e : Error) (b' : B)
        → backend.configure_instance (configure_request cluster_id blob) b ≡ (err e, b')
        → Works m b (Operation.configure cluster_id blob md) (failed_with e m) b'
    -- Without the capability of a readiness check.
    configured :
        (cluster_id : String) (blob : List ℕ) (md : StringMap) (b' : B)
        → backend.configure_instance (configure_request cluster_id blob) b ≡ (ok tt, b')
        → backend.confirm_node_ready ≡ none
        → Works m b
            (Operation.configure cluster_id blob md)
            (record m { state = State.configured })
            b'
    not_ready :
        (cluster_id : String) (blob : List ℕ) (md : StringMap)
        (check : ConfirmNodeReadyRequest → B → Result Error (Unit {0}) × B) (e : Error) (b' b'' : B)
        → backend.configure_instance (configure_request cluster_id blob) b ≡ (ok tt, b')
        → backend.confirm_node_ready ≡ some check
        → check (ready_request cluster_id) b' ≡ (err e, b'')
        → Works m b
            (Operation.configure cluster_id blob md)
            (failed_with (Error.node_readiness e) m)
            b''
    ready :
        (cluster_id : String) (blob : List ℕ) (md : StringMap)
        (check : ConfirmNodeReadyRequest → B → Result Error (Unit {0}) × B) (b' b'' : B)
        → backend.configure_instance (configure_request cluster_id blob) b ≡ (ok tt, b')
        → backend.confirm_node_ready ≡ some check
        → check (ready_request cluster_id) b' ≡ (ok tt, b'')
        → Works m b
            (Operation.configure cluster_id blob md)
            (record m { state = State.configured })
            b''
    drain_failed :
        (grace : ℤ) (e : Error) (b' : B)
        → backend.drain_instance (drain_request grace) b ≡ (err e, b')
        → Works m b (Operation.drain grace) (failed_with e m) b'
    drained :
        (grace : ℤ) (b' : B)
        → backend.drain_instance (drain_request grace) b ≡ (ok tt, b')
        → Works m b
            (Operation.drain grace)
            (record m { state = State.idle; cluster = ""; shard_metadata = none })
            b'
    delete_failed :
        (d : DeleteInstanceRequest → B → Result Error (Unit {0}) × B) (e : Error) (b' : B)
        → backend.delete_instance ≡ some d
        → d delete_request b ≡ (err e, b')
        → Works m b Operation.delete (failed_with e m) b'
    deleted :
        (d : DeleteInstanceRequest → B → Result Error (Unit {0}) × B) (b' : B)
        → backend.delete_instance ≡ some d
        → d delete_request b ≡ (ok tt, b')
        → Works m b Operation.delete (record m { state = State.speculative; host = no_host_ref }) b'
    -- Without the capability of a deletion; `Delete` starts no transition then.
    undeletable :
        (e : Error)
        → backend.delete_instance ≡ none
        → Works m b Operation.delete (failed_with e m) b

  module _ (m : Machine) (b : B) where
    create_works :
        (r : Result Error CreateInstanceResult × B)
        → backend.create_instance create_request b ≡ r
        → Works m b Operation.create (settle Kind.create (create_result r.0) m) r.1
    unfolding create_result create_effect settle stable
    create_works (err e, b') q = create_failed e b' q
    create_works (ok res, b') q = elim (Bool-cases (host_empty res.host)) [
      | inl y ↦ rw y (hostless res b' q y)
      | inr n ↦
          rw (n, refine-given res.resources m.resources, refine-given res.allocatable m.allocatable)
            (created res b' q n)
    ]

    configure_works :
        (cluster_id : String) (blob : List ℕ) (md : StringMap) (r : Result Error (Unit {0}) × B)
        (o : Option (ConfirmNodeReadyRequest → B → Result Error (Unit {0}) × B))
        → backend.configure_instance (configure_request cluster_id blob) b ≡ r
        → backend.confirm_node_ready ≡ o
        → Works m b
            (Operation.configure cluster_id blob md)
            (settle Kind.configure (confirm backend o (ready_request cluster_id) r.0 r.1).0 m)
            (confirm backend o (ready_request cluster_id) r.0 r.1).1
    unfolding confirm settle stable
    configure_works cluster_id blob md (err e, b') o q c =
        configure_failed cluster_id blob md e b' q
    configure_works cluster_id blob md (ok u, b') none q c = configured cluster_id blob md b' q c
    configure_works cluster_id blob md (ok u, b') (some check) q c =
        checked (check (ready_request cluster_id) b') refl
      where
        checked :
            (r : Result Error (Unit {0}) × B)
            → check (ready_request cluster_id) b' ≡ r
            → Works m b
                (Operation.configure cluster_id blob md)
                (settle Kind.configure (readiness_result r.0) m)
                r.1
        checked (err e, b'') t =
            (unfold readiness_result in not_ready cluster_id blob md check e b' b'' q c t)
        checked (ok v, b'') t =
            (unfold readiness_result in ready cluster_id blob md check b' b'' q c t)

    drain_works :
        (grace : ℤ) (r : Result Error (Unit {0}) × B)
        → backend.drain_instance (drain_request grace) b ≡ r
        → Works m b
            (Operation.drain grace)
            (settle Kind.drain (effect_result drain_effect r.0) m)
            r.1
    unfolding effect_result drain_effect settle stable
    drain_works grace (err e, b') q = drain_failed grace e b' q
    drain_works grace (ok u, b') q = drained grace b' q

    delete_works :
        (o : Option (DeleteInstanceRequest → B → Result Error (Unit {0}) × B))
        → backend.delete_instance ≡ o
        → Works m b Operation.delete
            (settle Kind.delete (delete_with backend o delete_request b).0 m)
            (delete_with backend o delete_request b).1
    unfolding delete_with settle stable
    delete_works none q = undeletable _ q
    delete_works (some d) q = answered (d delete_request b) refl
      where
        answered :
            (r : Result Error (Unit {0}) × B)
            → d delete_request b ≡ r
            → Works m b Operation.delete
                (settle Kind.delete (effect_result delete_effect r.0) m)
                r.1
        answered (err e, b') t = (unfold effect_result in delete_failed d e b' q t)
        answered (ok u, b') t = (unfold effect_result delete_effect in deleted d b' q t)

    -- The work of an operation, with its result applied to the machine, is what the answers of the
    -- backend tell: each failure makes the machine FAILED with the error of the call that failed, a
    -- Create without a host and a Configure whose node does not get ready among them, and a success
    -- makes it Idle on the host of the answer, Configured, Idle and unbound, or Speculative.
    pub run_op-Works :
        (op : Operation)
        → Works m b op
            (settle (kind_of op) (run_op backend op snap op_id b).0 m)
            (run_op backend op snap op_id b).1
    unfolding run_op kind_of
    run_op-Works Operation.create = create_works (backend.create_instance create_request b) refl
    run_op-Works (Operation.configure c blob md) =
        configure_works c blob md (backend.configure_instance (configure_request c blob) b)
          backend.confirm_node_ready refl refl
    run_op-Works (Operation.drain g) =
        drain_works g (backend.drain_instance (drain_request g) b) refl
    run_op-Works Operation.delete = delete_works backend.delete_instance refl
