-- ===== src/Kit/System/Progress.antt =====
-- Every machine in a transitional state has a transition that runs for it, which settles it.
use bigfleet_providers.Prelude.{
  List, [], ◌∷◌, ◌++◌, Option, none, some, get, get-insert_self, Result, ok, err, ◌≡◌, refl, sym,
  ap, ◌∙◌, inl, inr,
}
use bigfleet_providers.Kit.Errors.{Error}
use bigfleet_providers.Kit.Lifecycle.{State, Kind, transitional}
use bigfleet_providers.Kit.Machine.{Machine}
use bigfleet_providers.Kit.Messages.{Request}
use bigfleet_providers.Kit.Store.{Store}
use bigfleet_providers.Kit.Server.{Config, Server, string_key, persist, touch, with_defaults}
use bigfleet_providers.Kit.Server.Durable.{Durable}
use bigfleet_providers.Kit.Operation.{OpResult, kind_of}
use bigfleet_providers.Kit.Operation.Results.{ResultFits, run_op-ResultFits}
use bigfleet_providers.Kit.Dispatch.{Task, Outcome, settle, complete}
use bigfleet_providers.Kit.Dispatch.Completion.{complete_current}
use bigfleet_providers.Kit.Dispatch.Retry.{entered-state}
use bigfleet_providers.Kit.Rpc.{call}
use bigfleet_providers.Kit.Rpc.Cases.{machine_of, operation_of}
use bigfleet_providers.Kit.Rpc.Keeps.{Called, call-Called}
use bigfleet_providers.Kit.Startup.{is_transitional, effective, new, start}
use bigfleet_providers.Kit.Startup.Keeps.{OnOk}
use bigfleet_providers.Kit.System.{
  Process, Step, Reach, request, finish, expire, late, refresh, drift, restart, boot, next, spawn,
  after_call, after_completion, after_timeout, after_late, after_reconcile, after_restart,
}
use bigfleet_providers.Kit.System.Keeps.{Kept, Reach-Kept}
use bigfleet_providers.Kit.System.Owners.{
  Owned, Owned-same, Owned-begin, Owned-end, Owned-none, All-middle, transitional-is_transitional,
}
use bigfleet_providers.Kit.System.Rests.{
  state_of, state_at, state_at-insert_eq, state_at-insert_ne, startable-rests, settle-rests,
}
use bigfleet_providers.Kit.System.Starts.{
  reconcile-SameRests, AtRest, start_fresh-AtRest, start_kept-AtRest,
}

abbrev pub OwnedBy : {S : Type 0} → Server S → List Task → Type 0
OwnedBy s ts = Owned (state_at s.machines) ts

-- A machine in a state that is transitional is there.
pub known :
    (k : Kind) (o : Option Machine)
    → state_of o ≡ transitional k
    → (m : Machine) × (o ≡ some m) × (m.state ≡ transitional k)
known k none h = absurd (unspecified k h)
  where
    unspecified : (k : Kind) → State.unspecified ≡ transitional k → ⊥
    unspecified k e = cc (transitional-is_transitional k, ap is_transitional e)
known k (some m) h = (m, refl, h)

module _ {B S : Type 0} (cfg : Config B S) where
  Called-Owned :
      (req : Request) (s : Server S) (o : Outcome S) (ts : List Task)
      → Called cfg req s o
      → OwnedBy s ts
      → OwnedBy o.server (spawn o.task ts)
  unfolding spawn
  Called-Owned req s o ts (inl t) h = rw (t.task, t.server) h
  Called-Owned req s o ts (inr (fences, step, inl k)) h = rw (k.task, k.machines) h
  Called-Owned req s o ts (inr (fences, step, inr (m, a))) h =
      rw (a.task, a.machines)
        (Owned-begin h _
          (rw a.was (startable-rests m.state (kind_of (operation_of req)) a.startable))
          (state_at-insert_eq (machine_of req) (machine_of req) _ s.machines refl
            ∙ entered-state (operation_of req) m)
          (λ j n. state_at-insert_ne j (machine_of req) _ s.machines n))

-- The completion of a running transition finds its machine in the state of its kind.
complete-Owned :
    {S : Type 0} (st : Store S) (before : List Task) (t : Task) (after : List Task) (r : OpResult)
    (s : Server S)
    → ResultFits t.op r
    → OwnedBy s (before ++ t ∷ after)
    → OwnedBy (complete st t r s) (before ++ after)
unfolding persist touch
complete-Owned st before t after r s f h =
    let (m, was, e) =
      known (kind_of t.op) (get t.id s.machines) (All-middle _ before t after h.kinds) in
    rw (complete_current st t r s m was e) (
      Owned-end before t after h
        (ap is_transitional (state_at-insert_eq t.id t.id _ s.machines refl)
          ∙ settle-rests t.op r m f)
        (λ j n. state_at-insert_ne j t.id _ s.machines n))

module _ {B S : Type 0} (cfg : Config B S) (durable : Durable cfg.store) where
  abbrev pub ProcessOwned : Process B S → Type 0
  ProcessOwned p = OwnedBy p.server p.running

  after_call-Owned :
      (req : Request) (p : Process B S) → ProcessOwned p → ProcessOwned (after_call cfg req p)
  unfolding after_call
  after_call-Owned req p h =
      Called-Owned (effective cfg) req p.server (call (effective cfg) req p.server) p.running
        (call-Called (effective cfg) req p.server) h

  after_completion-Owned :
      (before : List Task) (t : Task) (after : List Task) (p : Process B S)
      → p.running ≡ before ++ t ∷ after
      → ProcessOwned p
      → ProcessOwned (after_completion cfg t (before ++ after) p)
  unfolding after_completion
  after_completion-Owned before t after p e h =
      complete-Owned cfg.store before t after _ p.server
        (run_op-ResultFits cfg.backend t.op t.snapshot t.op_id p.substrate) (rw (← e) h)

  pub after_timeout-Owned :
      (before : List Task) (t : Task) (after : List Task) (p : Process B S)
      → p.running ≡ before ++ t ∷ after
      → ProcessOwned p
      → ProcessOwned (after_timeout cfg t (before ++ after) p)
  unfolding after_timeout
  after_timeout-Owned before t after p e h =
      complete-Owned cfg.store before t after (err (Error.timed_out (kind_of t.op))) p.server tt
        (rw (← e) h)

  after_reconcile-Owned : (p : Process B S) → ProcessOwned p → ProcessOwned (after_reconcile cfg p)
  unfolding after_reconcile
  after_reconcile-Owned p h =
      Owned-same h (reconcile-SameRests (effective cfg) p.substrate p.server)

  Started-Owned :
      (r : Result Error (Server S)) (s : Server S)
      → OnOk (λ t. AtRest t.machines) r
      → r ≡ ok s
      → OwnedBy s []
  Started-Owned (err e) s h q = cc
  Started-Owned (ok s') s h q = rw (sym (same s' s q)) (Owned-none (state_at s'.machines) h)
    where
      same : (x y : Server S) → Path (Result Error (Server S)) (ok x) (ok y) → x ≡ y
      same x y e = cc

  Step-Owned :
      (p q : Process B S) → Step cfg p q → Kept cfg durable p → ProcessOwned p → ProcessOwned q
  unfolding after_restart after_late new with_defaults
  Step-Owned p _ (request req) k h = after_call-Owned req p h
  Step-Owned p _ (finish before t after e) k h = after_completion-Owned before t after p e h
  Step-Owned p _ (expire before t after e) k h = after_timeout-Owned before t after p e h
  Step-Owned p _ (late before t after e) k h = h
  Step-Owned p _ refresh k h = after_reconcile-Owned p h
  Step-Owned p _ (drift b) k h = h
  Step-Owned p _ (restart order s e c) k h =
      Started-Owned
        (start (effective cfg) (cfg.store.load p.server.store) order p.substrate p.server.store) s
        (rw k.synced
          (start_kept-AtRest (effective cfg) p.server order p.substrate p.server.store k.fits c))
        e

  -- With a store that keeps what it is given: in every process that is reached, a machine in a
  -- transitional state has exactly one running transition, which is of the kind of that state, and
  -- any other machine has none.
  pub Reach-Owned : (p : Process B S) → Reach cfg p → ProcessOwned p
  unfolding new with_defaults
  Reach-Owned _ (boot order b store snap s l f h) =
      Started-Owned (start (effective cfg) (cfg.store.load store) order b store) s
        (rw l (start_fresh-AtRest (effective cfg) snap order b store f)) h
  Reach-Owned q (next {p} r step) =
      Step-Owned p q step (Reach-Kept cfg durable p r) (Reach-Owned p r)

  -- Steps one after the other.
  pub data Run : Process B S → Process B S → Type 0 where
    here : {p : Process B S} → Run p p
    then_step : {p q r : Process B S} → Step cfg p q → Run q r → Run p r

  -- With a store that keeps what it is given: in every process that is reached, the completion of a
  -- running transition is never stale. It settles its machine, whatever ran before it.
  pub Reach-settles :
      (before : List Task) (t : Task) (after : List Task) (r : OpResult) (p : Process B S)
      → Reach cfg p
      → p.running ≡ before ++ t ∷ after
      → (m : Machine) × (get t.id p.server.machines ≡ some m)
        × (get t.id (complete cfg.store t r p.server).machines ≡ some (settle (kind_of t.op) r m))
  unfolding persist touch
  Reach-settles before t after r p reach e =
      let h = Reach-Owned p reach in
      let (m, was, q) = known (kind_of t.op) (get t.id p.server.machines) (
        All-middle (λ t. state_at p.server.machines t.id ≡ transitional (kind_of t.op)) before t
          after (rw (← e) h.kinds)) in
      (
        m,
        was,
        rw (complete_current cfg.store t r p.server m was q)
            (get-insert_self t.id (settle (kind_of t.op) r m) p.server.machines),
      )
