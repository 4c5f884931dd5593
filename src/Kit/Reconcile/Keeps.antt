-- ===== src/Kit/Reconcile/Keeps.antt =====
-- `Reconcile` keeps the inventory sound and the store in step, and changes nothing unless it says so.
use bigfleet_providers.Prelude.{
  Bool, false, ◌||◌, List, [], ◌∷◌, Option, none, some, true, get, insert, insert_same, ap, Result,
  ok, err, ◌≡◌, refl, ◌∙◌, arith, inl, inr, Bool-cases,
}
use bigfleet_providers.Kit.Errors.{Error, Defect}
use bigfleet_providers.Kit.Instance.{Instance, validate}
use bigfleet_providers.Kit.Instance.Shape.{InShape, validate-InShape}
use bigfleet_providers.Kit.Machine.{Machine}
use bigfleet_providers.Kit.Server.{Config, Server, string_key, touch}
use bigfleet_providers.Kit.Server.Durable.{Durable, Synced}
use bigfleet_providers.Kit.Dispatch.Durable.{persist_if-Synced}
use bigfleet_providers.Kit.Sound.Inventory.{Fits, Fits-insert, persist_if-Fits}
use bigfleet_providers.Kit.Sound.Reports.{to_machine-Sound}
use bigfleet_providers.Kit.Reconcile.{
  refresh_substrate, merge, merge_valid, reconcile_with, reconcile_one, reconcile_all, reconcile,
}
use bigfleet_providers.Kit.Reconcile.Refresh.{
  refresh_substrate_lem, refresh_substrate_unchanged, refreshed-Sound,
}
use bigfleet_providers.Kit.Sound.{Sound}

module _ {S : Type 0} (rz : Bool) where
  merge-Fits :
      (o : Option Machine) (i : Instance) (s : Server S)
      → get i.id s.machines ≡ o
      → InShape rz i
      → Fits rz s
      → Fits rz (merge o i s).0
  unfolding merge touch
  merge-Fits none i s g h f =
      Fits-insert rz s _ i.id _ refl f.ops f.fences (to_machine-Sound rz i h) f
  merge-Fits (some m) i s g h f = elim (Bool-cases (refresh_substrate m i).1) [
    | inl y ↦ rw y (Fits-insert rz s _ i.id _ refl f.ops f.fences fresh f)
    | inr n ↦ rw n (Fits-insert rz s _ i.id _ refl f.ops f.fences fresh f)
  ]
    where
      fresh : Sound rz i.id (refresh_substrate m i).0
      fresh = rw (refresh_substrate_lem m i) (refreshed-Sound rz i.id m i (f.sound i.id m g) h)

  merge_valid-Fits :
      (o : Option Defect) (i : Instance) (s : Server S)
      → validate rz i ≡ o
      → Fits rz s
      → Fits rz (merge_valid o i s).0
  unfolding merge_valid
  merge_valid-Fits none i s v f = merge-Fits _ i s refl ((validate-InShape rz i).0 v) f
  merge_valid-Fits (some d) i s v f = f

  reconcile_one-Fits : (i : Instance) (s : Server S) → Fits rz s → Fits rz (reconcile_one rz i s).0
  unfolding reconcile_one
  reconcile_one-Fits i s f = merge_valid-Fits (validate rz i) i s refl f

  pub reconcile_all-Fits :
      (is : List Instance) (s : Server S) → Fits rz s → Fits rz (reconcile_all rz is s).0
  unfolding reconcile_all
  reconcile_all-Fits [] s f = f
  reconcile_all-Fits (i ∷ is) s f =
      reconcile_all-Fits is (reconcile_one rz i s).0 (reconcile_one-Fits i s f)

  merge_unchanged :
      (o : Option Machine) (i : Instance) (s : Server S)
      → get i.id s.machines ≡ o
      → (merge o i s).1 ≡ false
      → (merge o i s).0 ≡ s
  unfolding merge
  merge_unchanged none i s g h = cc
  merge_unchanged (some m) i s g h = elim (Bool-cases (refresh_substrate m i).1) [
    | inl y ↦ absurd (told y h)
    | inr n ↦ rw n (
        ap (λ ms. record s { machines = ms })
          (ap (λ m'. insert i.id m' s.machines) (refresh_substrate_unchanged i m n)
            ∙ insert_same i.id m s.machines g))
  ]
    where
      told : (refresh_substrate m i).1 ≡ true → (merge (some m) i s).1 ≡ false → ⊥
      told y h = ground arith

  merge_valid_unchanged :
      (o : Option Defect) (i : Instance) (s : Server S)
      → (merge_valid o i s).1 ≡ false
      → (merge_valid o i s).0 ≡ s
  unfolding merge_valid
  merge_valid_unchanged none i s h = merge_unchanged (get i.id s.machines) i s refl h
  merge_valid_unchanged (some d) i s h = refl

  reconcile_one_unchanged :
      (i : Instance) (s : Server S)
      → (reconcile_one rz i s).1 ≡ false
      → (reconcile_one rz i s).0 ≡ s
  unfolding reconcile_one
  reconcile_one_unchanged i s h = merge_valid_unchanged (validate rz i) i s h

  -- A reconciliation that reports no change makes none.
  pub reconcile_all_unchanged :
      (is : List Instance) (s : Server S)
      → (reconcile_all rz is s).1 ≡ false
      → (reconcile_all rz is s).0 ≡ s
  unfolding reconcile_all
  reconcile_all_unchanged [] s h = refl
  reconcile_all_unchanged (i ∷ is) s h =
      reconcile_all_unchanged is (reconcile_one rz i s).0 (right _ _ h)
      ∙ reconcile_one_unchanged i s (left _ _ h)
    where
      left : (a b : Bool) → (a || b) ≡ false → a ≡ false
      left a b e = ground arith

      right : (a b : Bool) → (a || b) ≡ false → b ≡ false
      right a b e = ground arith

module _ {B S : Type 0} (cfg : Config B S) (s : Server S) where
  reconcile_with-Fits :
      (r : Result Error (List Instance))
      → Fits cfg.opts.require_zone s
      → Fits cfg.opts.require_zone (reconcile_with cfg r s).1
  unfolding reconcile_with
  reconcile_with-Fits (err e) f = f
  reconcile_with-Fits (ok is) f =
      persist_if-Fits cfg.opts.require_zone cfg.store _ _
        (reconcile_all-Fits cfg.opts.require_zone is s f)

  -- A reconciliation keeps a sound inventory sound, whatever the backend reports.
  pub reconcile-Fits :
      (b : B) → Fits cfg.opts.require_zone s → Fits cfg.opts.require_zone (reconcile cfg b s).1
  unfolding reconcile
  reconcile-Fits b f = reconcile_with-Fits (cfg.backend.describe b) f

  reconcile_with-Synced :
      (r : Result Error (List Instance))
      → Durable cfg.store
      → Synced cfg.store s
      → Synced cfg.store (reconcile_with cfg r s).1
  unfolding reconcile_with
  reconcile_with-Synced (err e) d h = h
  reconcile_with-Synced (ok is) d h =
      persist_if-Synced cfg.store d (reconcile_all cfg.opts.require_zone is s).1
        (reconcile_all cfg.opts.require_zone is s).0
        (λ n. rw (reconcile_all_unchanged cfg.opts.require_zone is s n) h)

  -- A reconciliation keeps a store that keeps what it is given in step.
  pub reconcile-Synced :
      (b : B) → Durable cfg.store → Synced cfg.store s → Synced cfg.store (reconcile cfg b s).1
  unfolding reconcile
  reconcile-Synced b d h = reconcile_with-Synced (cfg.backend.describe b) d h
