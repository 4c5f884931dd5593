-- ===== src/Kit/Startup/Keeps.antt =====
-- `New` starts with a sound inventory and a store in step, and with no transition under way.
use bigfleet_providers.Prelude.{
  String, Bool, true, false, ◌||◌, List, [], ◌∷◌, Option, none, some, get, Result, ok, err, ◌≡◌,
  refl, ◌∙◌, arith, inl, inr, Bool-cases, ◌>>=◌,
}
use bigfleet_providers.Kit.Errors.{Error, Defect}
use bigfleet_providers.Kit.Instance.{Instance, validate}
use bigfleet_providers.Kit.Instance.Shape.{validate-InShape}
use bigfleet_providers.Kit.Machine.{Machine}
use bigfleet_providers.Kit.Store.{Snapshot, Store}
use bigfleet_providers.Kit.Server.{
  Config, Server, string_key, touch, new_server, snapshot, load_snapshot,
}
use bigfleet_providers.Kit.Server.Durable.{Durable, Synced, persist-Synced}
use bigfleet_providers.Kit.Server.RoundTrip.{stamps, load_snapshot-snapshot}
use bigfleet_providers.Kit.Dispatch.Durable.{persist_if-Synced}
use bigfleet_providers.Kit.Sound.Inventory.{
  Fits, Fits-same, Fits-insert, Fits-KeyIsId, persist-Fits, persist_if-Fits,
}
use bigfleet_providers.Kit.Sound.Reports.{to_machine-Sound, interrupted-Sound}
use bigfleet_providers.Kit.Startup.{
  is_transitional, is_fresh, recover_machine, recover_all, seed_machine, seed_valid, seed_with,
  seed_all, recover, seed, start,
}

-- What holds of the value of a result, if there is one.
abbrev pub OnOk {ℓ} : {E A : Type 0} → (A → Type ℓ) → Result E A → Type ℓ
OnOk P (err e) = Unit
OnOk P (ok a) = P a

pub OnOk-bind :
    {E A B : Type 0} (P : A → Type 0) (Q : B → Type 0) (m : Result E A) (f : A → Result E B)
    → OnOk P m
    → ((a : A) → P a → OnOk Q (f a))
    → OnOk Q (m >>= f)
OnOk-bind P Q (err e) f h k = tt
OnOk-bind P Q (ok a) f h k = k a h

module _ {S : Type 0} (rz : Bool) where
  recover_machine-Fits :
      (o : Option Machine) (id : String) (s : Server S)
      → get id s.machines ≡ o
      → Fits rz s
      → Fits rz (recover_machine o id s).0
  unfolding recover_machine touch
  recover_machine-Fits none id s g f = f
  recover_machine-Fits (some m) id s g f = elim (Bool-cases (is_transitional m.state)) [
    | inl y ↦
        rw y (
          Fits-insert rz s _ id _ refl f.ops f.fences (interrupted-Sound rz id m (f.sound id m g))
            f)
    | inr n ↦ rw n f
  ]

  recover_all-Fits :
      (order : List String) (s : Server S) → Fits rz s → Fits rz (recover_all order s).0
  unfolding recover_all
  recover_all-Fits [] s f = f
  recover_all-Fits (id ∷ ids) s f = recover_all-Fits ids _ (recover_machine-Fits _ id s refl f)

  recover_machine_unchanged :
      (o : Option Machine) (id : String) (s : Server S)
      → (recover_machine o id s).1 ≡ false
      → (recover_machine o id s).0 ≡ s
  unfolding recover_machine
  recover_machine_unchanged none id s h = refl
  recover_machine_unchanged (some m) id s h = ground arith

  -- A recovery that reports no change makes none.
  recover_all_unchanged :
      (order : List String) (s : Server S)
      → (recover_all order s).1 ≡ false
      → (recover_all order s).0 ≡ s
  unfolding recover_all
  recover_all_unchanged [] s h = refl
  recover_all_unchanged (id ∷ ids) s h =
      recover_all_unchanged ids _ (right _ _ h)
      ∙ recover_machine_unchanged (get id s.machines) id s (left _ _ h)
    where
      left : (a b : Bool) → (a || b) ≡ false → a ≡ false
      left a b e = ground arith

      right : (a b : Bool) → (a || b) ≡ false → b ≡ false
      right a b e = ground arith

  seed_valid-Fits :
      (o : Option Defect) (i : Instance) (s : Server S)
      → validate rz i ≡ o
      → Fits rz s
      → OnOk (Fits rz) (seed_valid o i s)
  unfolding seed_valid seed_machine touch
  seed_valid-Fits (some d) i s v f = tt
  seed_valid-Fits none i s v f = fresh (get i.id s.machines)
    where
      fresh : (o : Option Machine) → OnOk (Fits rz) (seed_machine o i s)
      fresh (some m) = tt
      fresh none =
          Fits-insert rz s _ i.id _ refl f.ops f.fences
            (to_machine-Sound rz i ((validate-InShape rz i).0 v)) f

  seed_all-Fits :
      (is : List Instance) (s : Server S) → Fits rz s → OnOk (Fits rz) (seed_all rz is s)
  unfolding seed_all
  seed_all-Fits [] s f = f
  seed_all-Fits (i ∷ is) s f =
      OnOk-bind (Fits rz) (Fits rz) (seed_valid (validate rz i) i s) (seed_all rz is)
        (seed_valid-Fits _ i s refl f) (seed_all-Fits is)

-- A server that has written its state through, with a sound inventory.
pub record Started {S : Type 0} (st : Store S) (rz : Bool) (s : Server S) : Type 0 where
  pub fits : Fits rz s
  pub synced : Synced st s

pub new_server-Fits : {S : Type 0} (rz : Bool) (x : S) → Fits rz (new_server x)
unfolding new_server get
new_server-Fits rz x = record { sound = λ k v h. cc; machines = tt; fences = tt; ops = tt }

module _ {B S : Type 0} (cfg : Config B S) where
  -- What a start begins from: an uninitialised store, or the snapshot of a server that had a sound
  -- inventory.
  pub data Source : Result Error Snapshot → Type 0 where
    failed : {e : Error} → Source (err e)
    fresh : {snap : Snapshot} → is_fresh snap ≡ true → Source (ok snap)
    kept : (s : Server S) → Fits cfg.opts.require_zone s → Source (ok (snapshot s))

module _ {B S : Type 0} (cfg : Config B S) (durable : Durable cfg.store) where
  abbrev IsStarted : Server S → Type 0
  IsStarted = Started cfg.store cfg.opts.require_zone

  seed_with-IsStarted :
      (r : Result Error (List Instance)) (s : Server S)
      → Fits cfg.opts.require_zone s
      → OnOk IsStarted (seed_with cfg r s)
  unfolding seed_with
  seed_with-IsStarted (err e) s f = tt
  seed_with-IsStarted (ok is) s f =
      OnOk-bind (Fits cfg.opts.require_zone) IsStarted (seed_all cfg.opts.require_zone is s) _
        (seed_all-Fits cfg.opts.require_zone is s f)
        (λ s' g. record {
          fits = persist-Fits cfg.opts.require_zone cfg.store s' g;
          synced = persist-Synced cfg.store s' durable;
        })

  -- A server that is loaded and recovered from the snapshot of one with a sound inventory.
  recover-IsStarted :
      (order : List String) (s : Server S) (x : S)
      → Fits cfg.opts.require_zone s
      → cfg.store.load x ≡ ok (snapshot s)
      → IsStarted (recover cfg order (load_snapshot (snapshot s) (new_server x)))
  unfolding recover snapshot
  recover-IsStarted order s x f h =
      rw (load_snapshot-snapshot s x (Fits-KeyIsId f) f.machines f.fences f.ops) (record {
        fits = persist_if-Fits rz cfg.store _ _ (recover_all-Fits rz order loaded loaded-Fits);
        synced =
            persist_if-Synced cfg.store durable (recover_all order loaded).1
              (recover_all order loaded).0 (λ n. rw (recover_all_unchanged rz order loaded n) h);
      })
    where
      rz : Bool
      rz = cfg.opts.require_zone

      loaded : Server S
      loaded = record s { last_mod = stamps s.rev s.machines; store = x }

      loaded-Fits : Fits rz loaded
      loaded-Fits = Fits-same rz s loaded refl refl f.fences f

  start_fresh :
      (snap : Snapshot) (order : List String) (b : B) (x : S)
      → is_fresh snap ≡ true
      → OnOk IsStarted (start cfg (ok snap) order b x)
  unfolding start seed
  start_fresh snap order b x h =
      rw h (seed_with-IsStarted (cfg.backend.describe b) (new_server x) (new_server-Fits _ x))

  start_kept :
      (s : Server S) (order : List String) (b : B) (x : S)
      → Fits cfg.opts.require_zone s
      → cfg.store.load x ≡ ok (snapshot s)
      → OnOk IsStarted (start cfg (ok (snapshot s)) order b x)
  unfolding start seed
  start_kept s order b x f h = elim (Bool-cases (is_fresh (snapshot s))) [
    | inl y ↦ start_fresh (snapshot s) order b x y
    | inr n ↦ rw n (recover-IsStarted order s x f h)
  ]

  start_from :
      (r : Result Error Snapshot) (order : List String) (b : B) (x : S)
      → cfg.store.load x ≡ r
      → Source cfg r
      → OnOk IsStarted (start cfg r order b x)
  unfolding start
  start_from (err e) order b x h failed = tt
  start_from (ok snap) order b x h (fresh y) = start_fresh snap order b x y
  start_from (ok _) order b x h (kept s f) = start_kept s order b x f h

  -- With a store that keeps what it is given, a start from an unwritten store or from the snapshot
  -- of a server with a sound inventory fails, or has a sound inventory and a store in step.
  pub start-IsStarted :
      (order : List String) (b : B) (x : S)
      → Source cfg (cfg.store.load x)
      → OnOk IsStarted (start cfg (cfg.store.load x) order b x)
  start-IsStarted order b x src = start_from _ order b x refl src
