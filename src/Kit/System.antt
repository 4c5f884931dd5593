-- ===== src/Kit/System.antt =====
-- A provider process as a whole: the server, its substrate, and the goroutines of `runTransition`.
-- Calls, completions, timeouts, reconciliations and restarts interleave; the lock of the server
-- makes each of them one step.
pub mod Keeps
pub mod Spots
pub mod Contract
pub mod Edges
pub mod Owners
pub mod Rests
pub mod Starts
pub mod Progress
pub mod Rested
pub mod Marks
pub mod Stale
use bigfleet_providers.Kit.Store.{Snapshot}
use bigfleet_providers.Prelude.{
  true, String, Option, none, some, List, [], ◌∷◌, ◌++◌, map, Perm, Result, ok, err, ◌≡◌,
}
use bigfleet_providers.Kit.Errors.{Error}
use bigfleet_providers.Kit.Instance.{Backend}
use bigfleet_providers.Kit.Messages.{Request}
use bigfleet_providers.Kit.Server.{Config, Server}
use bigfleet_providers.Kit.Operation.{kind_of, run_op}
use bigfleet_providers.Kit.Dispatch.{Task, Outcome, complete}
use bigfleet_providers.Kit.Rpc.{call}
use bigfleet_providers.Kit.Reconcile.{reconcile}
use bigfleet_providers.Kit.Startup.{effective, is_fresh, new}
use bigfleet_providers.Kit.Startup.Recovery.{Covers}

-- `running` are the transitions whose `select` is still open, `abandoned` the calls of the backend
-- that their timeout has given up.
pub record Process (B S : Type 0) : Type 0 where
  pub server : Server S
  pub substrate : B
  pub running : List Task
  pub abandoned : List Task

spawn : Option Task → List Task → List Task
spawn none ts = ts
spawn (some t) ts = t ∷ ts

module _ {B S : Type 0} (cfg : Config B S) where
  unfoldable pub after_call : Request → Process B S → Process B S
  unfolding spawn
  after_call req p =
      let o = call (effective cfg) req p.server in
      record p { server = o.server; running = spawn o.task p.running }

  -- The backend answers in time.
  unfoldable pub after_completion : Task → List Task → Process B S → Process B S
  after_completion t rest p =
      let (r, b) = run_op cfg.backend t.op t.snapshot t.op_id p.substrate in
      record p { server = complete cfg.store t r p.server; substrate = b; running = rest }

  -- The timeout fires first; the backend may go on.
  unfoldable pub after_timeout : Task → List Task → Process B S → Process B S
  after_timeout t rest p = record p {
    server = complete cfg.store t (err (Error.timed_out (kind_of t.op))) p.server;
    running = rest;
    abandoned = t ∷ p.abandoned;
  }

  -- A backend call that was given up ends: its result is discarded.
  unfoldable pub after_late : Task → List Task → Process B S → Process B S
  after_late t rest p =
      let (r, b) = run_op cfg.backend t.op t.snapshot t.op_id p.substrate in
      record p { substrate = b; abandoned = rest }

  unfoldable pub after_reconcile : Process B S → Process B S
  after_reconcile p = record p { server = (reconcile (effective cfg) p.substrate p.server).1 }

  -- The process dies with its goroutines, and a new one starts from the store.
  unfoldable pub after_restart : Server S → Process B S → Process B S
  after_restart s p = record p { server = s; running = []; abandoned = [] }

  pub data Step (p : Process B S) : Process B S → Type 0 where
    request : (req : Request) → Step p (after_call req p)
    finish :
        (before : List Task) (t : Task) (after : List Task)
        → p.running ≡ before ++ (t ∷ after)
        → Step p (after_completion t (before ++ after) p)
    expire :
        (before : List Task) (t : Task) (after : List Task)
        → p.running ≡ before ++ (t ∷ after)
        → Step p (after_timeout t (before ++ after) p)
    late :
        (before : List Task) (t : Task) (after : List Task)
        → p.abandoned ≡ before ++ (t ∷ after)
        → Step p (after_late t (before ++ after) p)
    refresh : Step p (after_reconcile p)
    -- The substrate changes by itself.
    drift : (b : B) → Step p (record p { substrate = b })
    -- The runtime goes through every machine that is loaded, in some order.
    restart :
        (order : List String) (s : Server S)
        → new cfg order p.substrate p.server.store ≡ ok s
        → Covers order p.server.machines
        → Step p (after_restart s p)

  -- What a process comes to from a first start, on a store that was never written.
  pub data Reach : Process B S → Type 0 where
    boot :
        (order : List String) (b : B) (store : S) (snap : Snapshot) (s : Server S)
        → cfg.store.load store ≡ ok snap
        → is_fresh snap ≡ true
        → new cfg order b store ≡ ok s
        → Reach (record { server = s; substrate = b; running = []; abandoned = [] })
    next : {p q : Process B S} → Reach p → Step p q → Reach q
