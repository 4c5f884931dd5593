-- ===== src/Kit/System/Spots.antt =====
-- What calls, completions and starts do to the capacity types and the probabilities of SPOT machines.
use bigfleet_providers.Prelude.{
  String, Bool, true, false, List, [], ◌∷◌, Option, none, some, get, insert-Every, Result, ok, err,
  ◌≡◌, refl, sym, ◌∙◌, inl, inr, Bool-cases, Option-cases,
}
use bigfleet_providers.Kit.Errors.{Error, Defect}
use bigfleet_providers.Kit.Lifecycle.{CapacityType, State-discrete, transitional}
use bigfleet_providers.Kit.Machine.{Machine}
use bigfleet_providers.Kit.Instance.{Instance, validate}
use bigfleet_providers.Kit.Instance.Shape.{validate-InShape}
use bigfleet_providers.Kit.Messages.{Request}
use bigfleet_providers.Kit.Store.{Store, Snapshot}
use bigfleet_providers.Kit.Server.{Config, Server, string_key, touch, persist, snapshot, new_server}
use bigfleet_providers.Kit.Server.RoundTrip.{stamps, load_snapshot-snapshot}
use bigfleet_providers.Kit.Operation.{OpResult, kind_of}
use bigfleet_providers.Kit.Operation.Results.{ResultFits}
use bigfleet_providers.Kit.Dispatch.{Task, Outcome, entered, settle, complete, settled}
use bigfleet_providers.Kit.Dispatch.Completion.{complete_current, complete_stale}
use bigfleet_providers.Kit.Rpc.Keeps.{Called}
use bigfleet_providers.Kit.Rpc.Cases.{machine_of, operation_of}
use bigfleet_providers.Kit.Sound.Inventory.{Fits, Fits-KeyIsId}
use bigfleet_providers.Kit.Sound.Spots.{
  Spotted, AllSpotted, AsExpected, Spotted-same, to_machine-Spotted,
}
use bigfleet_providers.Kit.Startup.{
  start, recover, is_fresh, seed_machine, seed_valid, seed_all, seed_with, seed,
}
use bigfleet_providers.Kit.Startup.Keeps.{OnOk, OnOk-bind}
use bigfleet_providers.Kit.Startup.Recovery.{
  recovered, recovered_if, is_listed, get-recover_if, recovered-facts,
}
use bigfleet_providers.Kit.System.Edges.{entered-Moved, settle-Moved}

module _ (cap : String → CapacityType) where
  pub complete-AllSpotted :
      {S : Type 0} (st : Store S) (t : Task) (r : OpResult) (s : Server S)
      → ResultFits t.op r
      → AllSpotted cap s.machines
      → AllSpotted cap (complete st t r s).machines
  unfolding complete settled persist touch
  complete-AllSpotted st t r s fits a = elim (Option-cases (get t.id s.machines)) [
    | inl n ↦ rw n a
    | inr (m, was) ↦ elim (State-discrete m.state (transitional (kind_of t.op))) [
      | yes e ↦
          let g = settle-Moved t.op r m fits e in
          rw (complete_current st t r s m was e) (
            insert-Every (Spotted cap) t.id _ s.machines a (
              Spotted-same cap t.id m (settle (kind_of t.op) r m) g.capacity_type g.probability
                (a t.id m was)))
      | no n ↦ rw (complete_stale st t r s m was n) a
    ]
  ]

  pub Called-AllSpotted :
      {B S : Type 0} (cfg : Config B S) (req : Request) (s : Server S) (o : Outcome S)
      → Called cfg req s o
      → AllSpotted cap s.machines
      → AllSpotted cap o.server.machines
  Called-AllSpotted cfg req s o (inl t) h = rw t.server h
  Called-AllSpotted cfg req s o (inr (fences, step, inl k)) h = rw k.machines h
  Called-AllSpotted cfg req s o (inr (fences, step, inr (m, a))) h =
      let g = entered-Moved (operation_of req) m a.startable in
      rw a.machines (
        insert-Every (Spotted cap) (machine_of req) _ s.machines h (
          Spotted-same cap (machine_of req) m (entered (operation_of req) m) g.capacity_type
            g.probability (h (machine_of req) m a.was)))

  seed_valid-AllSpotted :
      {S : Type 0} (rz : Bool) (o : Option Defect) (i : Instance) (s : Server S)
      → validate rz i ≡ o
      → i.capacity_type ≡ cap i.id
      → AllSpotted cap s.machines
      → OnOk (λ t. AllSpotted cap t.machines) (seed_valid o i s)
  unfolding seed_valid seed_machine touch
  seed_valid-AllSpotted rz (some d) i s v e a = tt
  seed_valid-AllSpotted rz none i s v e a = written (get i.id s.machines)
    where
      written : (o : Option Machine) → OnOk (λ t. AllSpotted cap t.machines) (seed_machine o i s)
      written (some m) = tt
      written none =
          insert-Every (Spotted cap) i.id _ s.machines a
            (to_machine-Spotted cap rz i ((validate-InShape rz i).0 v) e)

  seed_all-AllSpotted :
      {S : Type 0} (rz : Bool) (is : List Instance) (s : Server S)
      → AsExpected cap is
      → AllSpotted cap s.machines
      → OnOk (λ t. AllSpotted cap t.machines) (seed_all rz is s)
  unfolding seed_all
  seed_all-AllSpotted rz [] s e a = a
  seed_all-AllSpotted rz (i ∷ is) s e a =
      OnOk-bind (λ t. AllSpotted cap t.machines) (λ t. AllSpotted cap t.machines)
        (seed_valid (validate rz i) i s) (seed_all rz is)
        (seed_valid-AllSpotted rz _ i s refl e.0 a) (λ t b. seed_all-AllSpotted rz is t e.1 b)

  recovered_if-Spotted :
      (id : String) (b : Bool) (o : Option Machine)
      → ((m : Machine) → o ≡ some m → Spotted cap id m)
      → (m : Machine) → recovered_if b o ≡ some m
      → Spotted cap id m
  recovered_if-Spotted id true none h m e = h m e
  recovered_if-Spotted id false o h m e = h m e
  recovered_if-Spotted id true (some n) h m e =
      let (c, p) = recovered-facts n in
      rw (sym (same (recovered n) m e)) (Spotted-same cap id n (recovered n) c p (h n refl))
    where
      same : (x y : Machine) → Path (Option Machine) (some x) (some y) → x ≡ y
      same x y q = cc

module _ {B S : Type 0} (cfg : Config B S) (cap : String → CapacityType) where
  -- What a backend does that never changes the capacity type of a machine.
  abbrev pub Constant : Type 0
  Constant = (b : B) (is : List Instance) → cfg.backend.describe b ≡ ok is → AsExpected cap is

  recover-AllSpotted :
      (order : List String) (s : Server S)
      → AllSpotted cap s.machines
      → AllSpotted cap (recover cfg order s).machines
  recover-AllSpotted order s a = λ id m g.
      recovered_if-Spotted cap id (is_listed id order) (get id s.machines) (a id) m
        (sym (get-recover_if cfg order s id) ∙ g)

  seed_with-AllSpotted :
      (r : Result Error (List Instance)) (s : Server S)
      → ((is : List Instance) → r ≡ ok is → AsExpected cap is)
      → AllSpotted cap s.machines
      → OnOk (λ t. AllSpotted cap t.machines) (seed_with cfg r s)
  unfolding seed_with persist
  seed_with-AllSpotted (err e) s h a = tt
  seed_with-AllSpotted (ok is) s h a =
      OnOk-bind (λ t. AllSpotted cap t.machines) (λ t. AllSpotted cap t.machines)
        (seed_all cfg.opts.require_zone is s) _
        (seed_all-AllSpotted cap cfg.opts.require_zone is s (h is refl) a) (λ t b. b)

  pub start_fresh-AllSpotted :
      (snap : Snapshot) (order : List String) (b : B) (x : S)
      → Constant
      → is_fresh snap ≡ true
      → OnOk (λ t. AllSpotted cap t.machines) (start cfg (ok snap) order b x)
  unfolding start seed new_server get
  start_fresh-AllSpotted snap order b x c h =
      rw h (seed_with-AllSpotted (cfg.backend.describe b) (new_server x) (c b) (λ id m g. cc))

  pub start_kept-AllSpotted :
      (s : Server S) (order : List String) (b : B) (x : S)
      → Constant
      → Fits cfg.opts.require_zone s
      → AllSpotted cap s.machines
      → OnOk (λ t. AllSpotted cap t.machines) (start cfg (ok (snapshot s)) order b x)
  unfolding start
  start_kept-AllSpotted s order b x c f a = elim (Bool-cases (is_fresh (snapshot s))) [
    | inl y ↦ start_fresh-AllSpotted (snapshot s) order b x c y
    | inr n ↦
        rw (n, load_snapshot-snapshot s x (Fits-KeyIsId f) f.machines f.fences f.ops)
          (recover-AllSpotted order (record s { last_mod = stamps s.rev s.machines; store = x }) a)
  ]
