-- ===== src/Kit/System/Contract.antt =====
-- The field-shape contract over the life of a process, of which the backend never changes the
-- capacity type of a machine.
use bigfleet_providers.Prelude.{String, Result, ok, err, ◌≡◌, sym}
use bigfleet_providers.Kit.Errors.{Error}
use bigfleet_providers.Kit.Lifecycle.{CapacityType}
use bigfleet_providers.Kit.Server.{Config, Server, string_key, with_defaults}
use bigfleet_providers.Kit.Server.Durable.{Durable, Synced}
use bigfleet_providers.Kit.Operation.{kind_of}
use bigfleet_providers.Kit.Operation.Results.{run_op-ResultFits}
use bigfleet_providers.Kit.Rpc.Keeps.{call-Called}
use bigfleet_providers.Kit.Sound.Spots.{AllSpotted}
use bigfleet_providers.Kit.Reconcile.{reconcile}
use bigfleet_providers.Kit.Reconcile.Contract.{Contract, reconcile_with-AllSpotted}
use bigfleet_providers.Kit.Startup.{effective, new, start}
use bigfleet_providers.Kit.Startup.Keeps.{OnOk}
use bigfleet_providers.Kit.System.{
  Process, Step, Reach, request, finish, expire, late, refresh, drift, restart, boot, next,
  after_call, after_completion, after_timeout, after_late, after_reconcile, after_restart,
}
use bigfleet_providers.Kit.System.Keeps.{Kept, Reach-Kept}
use bigfleet_providers.Kit.System.Spots.{
  Constant, complete-AllSpotted, Called-AllSpotted, start_fresh-AllSpotted, start_kept-AllSpotted,
}

module _ {B S : Type 0} (cfg : Config B S) (durable : Durable cfg.store)
    (cap : String → CapacityType) (constant : Constant cfg cap) where
  Started-AllSpotted :
      (r : Result Error (Server S)) (s : Server S)
      → OnOk (λ t. AllSpotted cap t.machines) r
      → r ≡ ok s
      → AllSpotted cap s.machines
  Started-AllSpotted (err e) s h q = cc
  Started-AllSpotted (ok s') s h q = rw (sym (same s' s q)) h
    where
      same : (x y : Server S) → Path (Result Error (Server S)) (ok x) (ok y) → x ≡ y
      same x y e = cc

  Step-AllSpotted :
      (p q : Process B S)
      → Step cfg p q
      → Kept cfg durable p
      → AllSpotted cap p.server.machines
      → AllSpotted cap q.server.machines
  unfolding after_call after_completion after_timeout after_late after_reconcile after_restart new
      with_defaults reconcile
  Step-AllSpotted p _ (request req) k a =
      Called-AllSpotted cap (effective cfg) req p.server _
        (call-Called (effective cfg) req p.server) a
  Step-AllSpotted p _ (finish before t after e) k a =
      complete-AllSpotted cap cfg.store t _ p.server
        (run_op-ResultFits cfg.backend t.op t.snapshot t.op_id p.substrate) a
  Step-AllSpotted p _ (expire before t after e) k a =
      complete-AllSpotted cap cfg.store t (err (Error.timed_out (kind_of t.op))) p.server tt a
  Step-AllSpotted p _ (late before t after e) k a = a
  Step-AllSpotted p _ refresh k a =
      reconcile_with-AllSpotted (effective cfg) cap (cfg.backend.describe p.substrate) p.server
        (constant p.substrate) a
  Step-AllSpotted p _ (drift b) k a = a
  Step-AllSpotted p _ (restart order s e c) k a =
      Started-AllSpotted
        (start (effective cfg) (cfg.store.load p.server.store) order p.substrate p.server.store) s
        (rw k.synced (
          start_kept-AllSpotted (effective cfg) cap p.server order p.substrate p.server.store
            constant k.fits a))
        e

  Reach-AllSpotted : (p : Process B S) → Reach cfg p → AllSpotted cap p.server.machines
  unfolding new with_defaults
  Reach-AllSpotted _ (boot order b store snap s l f h) =
      Started-AllSpotted (start (effective cfg) (cfg.store.load store) order b store) s
        (rw l (start_fresh-AllSpotted (effective cfg) cap snap order b store constant f)) h
  Reach-AllSpotted q (next {p} r step) =
      Step-AllSpotted p q step (Reach-Kept cfg durable p r) (Reach-AllSpotted p r)

  -- What every process that is reached keeps.
  pub record InOrder (p : Process B S) : Type 0 where
    pub contract : Contract cfg cap p.server
    pub synced : Synced cfg.store p.server

  -- With a store that keeps what it is given, and a backend that names for a machine the same
  -- capacity type in every report: whatever calls, completions, timeouts, late answers,
  -- reconciliations, changes of the substrate and restarts have led to a process from a start on a
  -- store that was never written, each of its records has the shape that `validate` asks for, the
  -- probability of SPOT capacity included, with a host, a binding and an error that fit its state,
  -- and its store holds the snapshot of its state.
  pub Reach-InOrder : (p : Process B S) → Reach cfg p → InOrder p
  Reach-InOrder p r =
      let k = Reach-Kept cfg durable p r in
      record {
        contract = record { fits = k.fits; spotted = Reach-AllSpotted p r };
        synced = k.synced;
      }
