-- ===== src/Kit/System/Starts.antt =====
-- A start, and a recovery that goes through every machine, leave no machine in a transitional state.
use bigfleet_providers.Prelude.{
  String, Bool, true, false, List, [], ◌∷◌, Option, none, some, get, Result, ok, err, ◌≡◌, refl, ap,
  ◌∙◌, ◌⊎◌, inl, inr, Bool-cases, Option-cases,
}
use bigfleet_providers.Kit.Errors.{Error, Defect}
use bigfleet_providers.Kit.Machine.{Machine}
use bigfleet_providers.Kit.Instance.{Instance, validate, to_machine}
use bigfleet_providers.Kit.Server.{
  snapshot, Config, Server, string_key, touch, persist, persist_if, new_server,
}
use bigfleet_providers.Kit.Server.RoundTrip.{stamps, load_snapshot-snapshot}
use bigfleet_providers.Kit.Sound.Inventory.{Fits, Fits-KeyIsId}
use bigfleet_providers.Kit.Reconcile.{reconcile_all, reconcile_with, reconcile}
use bigfleet_providers.Kit.Startup.{
  is_transitional, seed_machine, seed_valid, seed_all, seed_with, seed, recover, start, is_fresh,
}
use bigfleet_providers.Kit.Startup.Keeps.{OnOk, OnOk-bind}
use bigfleet_providers.Kit.Startup.Recovery.{
  Covers, is_listed, get-recover_listed, get-recover_if, recovered_if-none, recovered-stable,
}
use bigfleet_providers.Kit.Store.{Store, Snapshot}
use bigfleet_providers.Kit.System.Rests.{
  state_at, to_machine-rests, SameRests, insert-SameRests, reconcile_all-SameRests,
}

-- No machine is in a transitional state.
abbrev pub AtRest : List (String × Machine) → Type 0
AtRest machines = (j : String) → is_transitional (state_at machines j) ≡ false

SameRests-AtRest : (a b : List (String × Machine)) → SameRests a b → AtRest a → AtRest b
SameRests-AtRest a b h r j = kept (h j)
  where
    kept :
        (state_at b j ≡ state_at a j)
          ⊎ ((is_transitional (state_at a j) ≡ false) × (is_transitional (state_at b j) ≡ false))
        → is_transitional (state_at b j) ≡ false
    kept (inl e) = ap is_transitional e ∙ r j
    kept (inr (p, q)) = q

pub persist_if-machines :
    {S : Type 0} (st : Store S) (b : Bool) (s : Server S)
    → (persist_if st b s).machines ≡ s.machines
unfolding persist_if persist
persist_if-machines st true s = refl
persist_if-machines st false s = refl

-- A reconciliation brings no machine into or out of a transitional state.
pub reconcile-SameRests :
    {B S : Type 0} (cfg : Config B S) (b : B) (s : Server S)
    → SameRests s.machines (reconcile cfg b s).1.machines
unfolding reconcile
reconcile-SameRests cfg b s = with_result (cfg.backend.describe b)
  where
    with_result :
        (r : Result Error (List Instance))
        → SameRests s.machines (reconcile_with cfg r s).1.machines
    with_result (err e) = λ j. inl refl
    with_result (ok is) =
        rw
          (persist_if-machines cfg.store (reconcile_all cfg.opts.require_zone is s).1
            (reconcile_all cfg.opts.require_zone is s).0)
          (reconcile_all-SameRests cfg.opts.require_zone is s)

module _ {S : Type 0} (rz : Bool) where
  seed_machine-AtRest :
      (o : Option Machine) (i : Instance) (s : Server S)
      → validate rz i ≡ none
      → get i.id s.machines ≡ o
      → AtRest s.machines
      → OnOk (λ t. AtRest t.machines) (seed_machine o i s)
  unfolding seed_machine touch
  seed_machine-AtRest (some m) i s v h r = tt
  seed_machine-AtRest none i s v h r =
      SameRests-AtRest s.machines _
        (insert-SameRests none i.id (to_machine i) s.machines h
          (inr (refl, to_machine-rests rz i v)))
        r

  seed_valid-AtRest :
      (o : Option Defect) (i : Instance) (s : Server S)
      → validate rz i ≡ o
      → AtRest s.machines
      → OnOk (λ t. AtRest t.machines) (seed_valid o i s)
  unfolding seed_valid
  seed_valid-AtRest none i s v r = seed_machine-AtRest _ i s v refl r
  seed_valid-AtRest (some d) i s v r = tt

  seed_all-AtRest :
      (is : List Instance) (s : Server S)
      → AtRest s.machines
      → OnOk (λ t. AtRest t.machines) (seed_all rz is s)
  unfolding seed_all
  seed_all-AtRest [] s r = r
  seed_all-AtRest (i ∷ is) s r =
      OnOk-bind (λ t. AtRest t.machines) (λ t. AtRest t.machines) (seed_valid (validate rz i) i s)
        (seed_all rz is) (seed_valid-AtRest _ i s refl r) (seed_all-AtRest is)

module _ {B S : Type 0} (cfg : Config B S) where
  seed_with-AtRest :
      (r : Result Error (List Instance)) (s : Server S)
      → AtRest s.machines
      → OnOk (λ t. AtRest t.machines) (seed_with cfg r s)
  unfolding seed_with persist
  seed_with-AtRest (err e) s h = tt
  seed_with-AtRest (ok is) s h =
      OnOk-bind (λ t. AtRest t.machines) (λ t. AtRest t.machines)
        (seed_all cfg.opts.require_zone is s) _ (seed_all-AtRest cfg.opts.require_zone is s h)
        (λ t r. r)

  -- A recovery that goes through every machine leaves none in a transitional state.
  recover-AtRest :
      (order : List String) (s : Server S)
      → Covers order s.machines
      → AtRest (recover cfg order s).machines
  recover-AtRest order s c j = elim (Option-cases (get j s.machines)) [
    | inl n ↦ rw (get-recover_if cfg order s j, n, recovered_if-none (is_listed j order)) refl
    | inr (m, e) ↦ rw (get-recover_listed cfg order s j (c j m e), e) (recovered-stable m)
  ]

  -- A start from an unwritten store has every machine at rest.
  pub start_fresh-AtRest :
      (snap : Snapshot) (order : List String) (b : B) (x : S)
      → is_fresh snap ≡ true
      → OnOk (λ t. AtRest t.machines) (start cfg (ok snap) order b x)
  unfolding start seed new_server get
  start_fresh-AtRest snap order b x h =
      rw h (seed_with-AtRest (cfg.backend.describe b) (new_server x) (λ j. refl))

  -- So has a start from the snapshot of a server, if the recovery goes through its machines.
  pub start_kept-AtRest :
      (s : Server S) (order : List String) (b : B) (x : S)
      → Fits cfg.opts.require_zone s
      → Covers order s.machines
      → OnOk (λ t. AtRest t.machines) (start cfg (ok (snapshot s)) order b x)
  unfolding start
  start_kept-AtRest s order b x f c = elim (Bool-cases (is_fresh (snapshot s))) [
    | inl y ↦ start_fresh-AtRest (snapshot s) order b x y
    | inr n ↦
        rw (n, load_snapshot-snapshot s x (Fits-KeyIsId f) f.machines f.fences f.ops)
          (recover-AtRest order (record s { last_mod = stamps s.rev s.machines; store = x }) c)
  ]
