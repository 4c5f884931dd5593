-- ===== src/Kit/Operation/Results.antt =====
-- What the work of each kind of operation can return.
use bigfleet_providers.Prelude.{
  ℕ, ℤ, List, String, false, Option, none, some, Result, ok, err, ◌≡◌, refl, Bool-cases, inl, inr,
}
use bigfleet_providers.Kit.Errors.{Error}
use bigfleet_providers.Kit.Machine.{StringMap, Machine, host_empty}
use bigfleet_providers.Kit.Instance.{
  Backend, CreateInstanceResult, ConfirmNodeReadyRequest, DeleteInstanceRequest,
}
use bigfleet_providers.Kit.Operation.{
  Operation, OpResult, create_effect, drain_effect, delete_effect, create_result, effect_result,
  readiness_result, confirm, delete_with, run_op,
}

-- On success Create attaches a host, Drain unbinds, Delete drops the host, and Configure, whose
-- binding is made on acceptance, does nothing more.
abbrev pub ResultFits : Operation → OpResult → Type 0
ResultFits op (err e) = Unit
ResultFits Operation.create (ok none) = ⊥
ResultFits Operation.create (ok (some f)) =
    (res : CreateInstanceResult) × (host_empty res.host ≡ false) × (f ≡ create_effect res)
ResultFits (Operation.configure c b md) (ok none) = Unit
ResultFits (Operation.configure c b md) (ok (some f)) = ⊥
ResultFits (Operation.drain g) (ok none) = ⊥
ResultFits (Operation.drain g) (ok (some f)) = f ≡ drain_effect
ResultFits Operation.delete (ok none) = ⊥
ResultFits Operation.delete (ok (some f)) = f ≡ delete_effect

create_result-ResultFits :
    (r : Result Error CreateInstanceResult) → ResultFits Operation.create (create_result r)
unfolding create_result
create_result-ResultFits (err e) = tt
create_result-ResultFits (ok res) = elim (Bool-cases (host_empty res.host)) [
  | inl y ↦ rw y tt
  | inr n ↦ rw n (res, n, refl)
]

drain_result-ResultFits :
    (g : ℤ) (r : Result Error (Unit {0}))
    → ResultFits (Operation.drain g) (effect_result drain_effect r)
unfolding effect_result
drain_result-ResultFits g (err e) = tt
drain_result-ResultFits g (ok u) = refl

delete_result-ResultFits :
    (r : Result Error (Unit {0})) → ResultFits Operation.delete (effect_result delete_effect r)
unfolding effect_result
delete_result-ResultFits (err e) = tt
delete_result-ResultFits (ok u) = refl

module _ {B : Type 0} (backend : Backend B) where
  confirm-ResultFits :
      (c : String) (blob : List ℕ) (md : StringMap)
      (rc : Option (ConfirmNodeReadyRequest → B → Result Error (Unit {0}) × B))
      (req : ConfirmNodeReadyRequest) (r : Result Error (Unit {0})) (b : B)
      → ResultFits (Operation.configure c blob md) (confirm backend rc req r b).0
  unfolding confirm
  confirm-ResultFits c blob md rc req (err e) b = tt
  confirm-ResultFits c blob md none req (ok u) b = tt
  confirm-ResultFits c blob md (some rc) req (ok u) b = ready (rc req b).0
    where
      ready :
          (r : Result Error (Unit {0}))
          → ResultFits (Operation.configure c blob md) (readiness_result r)
      ready (err e) = unfold readiness_result in tt
      ready (ok u) = unfold readiness_result in tt

  delete_with-ResultFits :
      (d : Option (DeleteInstanceRequest → B → Result Error (Unit {0}) × B))
      (req : DeleteInstanceRequest) (b : B)
      → ResultFits Operation.delete (delete_with backend d req b).0
  unfolding delete_with
  delete_with-ResultFits none req b = tt
  delete_with-ResultFits (some d) req b = delete_result-ResultFits (d req b).0

  -- Whatever the backend returns, the work of an operation returns an error or what fits it: Create
  -- a host that is not empty, Configure no effect, Drain and Delete the effect of their kind.
  pub run_op-ResultFits :
      (op : Operation) (m : Machine) (op_id : String) (b : B)
      → ResultFits op (run_op backend op m op_id b).0
  unfolding run_op
  run_op-ResultFits Operation.create m op_id b = create_result-ResultFits _
  run_op-ResultFits (Operation.configure c blob md) m op_id b =
      confirm-ResultFits c blob md backend.confirm_node_ready _ _ _
  run_op-ResultFits (Operation.drain g) m op_id b = drain_result-ResultFits g _
  run_op-ResultFits Operation.delete m op_id b = delete_with-ResultFits backend.delete_instance _ b
