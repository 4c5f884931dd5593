-- ===== src/Kit/System/Keeps.antt =====
-- Every process that is reached has a sound inventory and a store in step with it, and its
-- transitions carry the ids of their machines.
use bigfleet_providers.Prelude.{
  String, Bool, List, [], ◌++◌, get, Result, ok, err, ◌≡◌, refl, sym, inl, inr, Option-cases,
}
use bigfleet_providers.Kit.Errors.{Error}
use bigfleet_providers.Kit.Messages.{Request}
use bigfleet_providers.Kit.Server.{Config, Server, string_key, touch, with_defaults}
use bigfleet_providers.Kit.Server.Durable.{Durable, Synced}
use bigfleet_providers.Kit.Operation.{OpResult, kind_of}
use bigfleet_providers.Kit.Operation.Results.{ResultFits, run_op-ResultFits}
use bigfleet_providers.Kit.Lifecycle.{State-discrete, transitional}
use bigfleet_providers.Kit.Dispatch.{Task, complete, settled}
use bigfleet_providers.Kit.Dispatch.Completion.{complete_current, complete_stale}
use bigfleet_providers.Kit.Dispatch.Durable.{complete-Synced}
use bigfleet_providers.Kit.Sound.Inventory.{Fits, Fits-insert, persist-Fits}
use bigfleet_providers.Kit.Sound.Transitions.{settle-Sound}
use bigfleet_providers.Kit.Rpc.Keeps.{call-Fits, call-Synced}
use bigfleet_providers.Kit.Reconcile.Keeps.{reconcile-Fits, reconcile-Synced}
use bigfleet_providers.Kit.Startup.{effective, new}
use bigfleet_providers.Kit.Startup.Keeps.{Started, OnOk, Source, fresh, kept, start-IsStarted}
use bigfleet_providers.Kit.System.{
  Process, Step, Reach, request, finish, expire, late, refresh, drift, restart, boot, next,
  after_call, after_completion, after_timeout, after_late, after_reconcile, after_restart,
}

module _ {B S : Type 0} (cfg : Config B S) (rz : Bool) where
  -- The completion of a transition keeps a sound inventory sound, if the result has the form that
  -- the backend gives.
  pub complete-Fits :
      (t : Task) (r : OpResult) (s : Server S)
      → ResultFits t.op r
      → Fits rz s
      → Fits rz (complete cfg.store t r s)
  unfolding complete settled touch
  complete-Fits t r s fits f = elim (Option-cases (get t.id s.machines)) [
    | inl n ↦ rw n f
    | inr (m, was) ↦ elim (State-discrete m.state (transitional (kind_of t.op))) [
      | yes e ↦ rw (complete_current cfg.store t r s m was e) (
          persist-Fits rz cfg.store _ (
            Fits-insert rz s _ t.id _ refl f.ops f.fences
              (settle-Sound rz t.id t.op r m (f.sound t.id m was) e fits) f))
      | no n ↦ rw (complete_stale cfg.store t r s m was n) f
    ]
  ]

module _ {B S : Type 0} (cfg : Config B S) (durable : Durable cfg.store) where
  -- What every step keeps.
  pub record Kept (p : Process B S) : Type 0 where
    pub fits : Fits cfg.opts.require_zone p.server
    pub synced : Synced cfg.store p.server

  after_call-Kept : (req : Request) (p : Process B S) → Kept p → Kept (after_call cfg req p)
  unfolding after_call
  after_call-Kept req p k = record {
    fits = call-Fits (effective cfg) cfg.opts.require_zone req p.server k.fits;
    synced = call-Synced (effective cfg) durable req p.server k.synced;
  }

  after_completion-Kept :
      (t : Task) (rest : List Task) (p : Process B S)
      → Kept p
      → Kept (after_completion cfg t rest p)
  unfolding after_completion
  after_completion-Kept t rest p k = record {
    fits =
        complete-Fits cfg cfg.opts.require_zone t _ p.server
          (run_op-ResultFits cfg.backend t.op t.snapshot t.op_id p.substrate) k.fits;
    synced = complete-Synced cfg.store durable t _ p.server k.synced;
  }

  after_timeout-Kept :
      (t : Task) (rest : List Task) (p : Process B S) → Kept p → Kept (after_timeout cfg t rest p)
  unfolding after_timeout
  after_timeout-Kept t rest p k = record {
    fits =
        complete-Fits cfg cfg.opts.require_zone t (err (Error.timed_out (kind_of t.op))) p.server tt
          k.fits;
    synced = complete-Synced cfg.store durable t _ p.server k.synced;
  }

  after_late-Kept :
      (t : Task) (rest : List Task) (p : Process B S) → Kept p → Kept (after_late cfg t rest p)
  unfolding after_late
  after_late-Kept t rest p k = record { fits = k.fits; synced = k.synced }

  after_reconcile-Kept : (p : Process B S) → Kept p → Kept (after_reconcile cfg p)
  unfolding after_reconcile with_defaults
  after_reconcile-Kept p k = record {
    fits = reconcile-Fits (effective cfg) p.server p.substrate k.fits;
    synced = reconcile-Synced (effective cfg) p.server p.substrate durable k.synced;
  }

  Started-Kept :
      (r : Result Error (Server S)) (s : Server S) (b : B) (running abandoned : List Task)
      → OnOk (Started cfg.store cfg.opts.require_zone) r
      → r ≡ ok s
      → Kept (record { server = s; substrate = b; running = running; abandoned = abandoned })
  Started-Kept (err e) s b running abandoned h q = cc
  Started-Kept (ok s') s b running abandoned h q =
      rw (sym (same s' s q)) (record { fits = h.fits; synced = h.synced })
    where
      same : (x y : Server S) → Path (Result Error (Server S)) (ok x) (ok y) → x ≡ y
      same x y e = cc

  new-Kept :
      (order : List String) (b : B) (x : S) (s : Server S)
      → Source (effective cfg) (cfg.store.load x)
      → new cfg order b x ≡ ok s
      → Kept (record { server = s; substrate = b; running = []; abandoned = [] })
  unfolding new with_defaults
  new-Kept order b x s src h =
      Started-Kept _ s b [] [] (start-IsStarted (effective cfg) durable order b x src) h

  Step-Kept : (p q : Process B S) → Step cfg p q → Kept p → Kept q
  unfolding after_restart with_defaults
  Step-Kept p _ (request req) k = after_call-Kept req p k
  Step-Kept p _ (finish before t after h) k = after_completion-Kept t (before ++ after) p k
  Step-Kept p _ (expire before t after h) k = after_timeout-Kept t (before ++ after) p k
  Step-Kept p _ (late before t after h) k = after_late-Kept t (before ++ after) p k
  Step-Kept p _ refresh k = after_reconcile-Kept p k
  Step-Kept p _ (drift b) k = record { fits = k.fits; synced = k.synced }
  Step-Kept p _ (restart order s h c) k =
      new-Kept order p.substrate p.server.store s (rw k.synced (kept p.server k.fits)) h

  -- With a store that keeps what it is given: whatever calls, completions, timeouts, late answers,
  -- reconciliations, changes of the substrate and restarts have led to a process from a start on a
  -- store that was never written, each of its records is sound, and its store holds the snapshot of
  -- its state.
  pub Reach-Kept : (p : Process B S) → Reach cfg p → Kept p
  unfolding with_defaults
  Reach-Kept _ (boot order b store snap s l f h) = new-Kept order b store s (rw l (fresh f)) h
  Reach-Kept q (next {p} r step) = Step-Kept p q step (Reach-Kept p r)
