-- ===== src/Kit/Reconcile/Contract.antt =====
-- `Reconcile` against a backend that never changes the capacity type of a machine: the whole
-- field-shape contract is kept, the probability of SPOT capacity included.
use bigfleet_providers.Prelude.{
  String, Bool, true, false, List, [], ◌∷◌, Option, none, some, get, insert, insert-Every, Result,
  ok, err, ◌≡◌, refl, inl, inr, Bool-cases,
}
use bigfleet_providers.Kit.Errors.{Error, Defect}
use bigfleet_providers.Kit.Lifecycle.{CapacityType}
use bigfleet_providers.Kit.Machine.{Machine}
use bigfleet_providers.Kit.Instance.{Instance, validate}
use bigfleet_providers.Kit.Instance.Shape.{InShape, validate-InShape}
use bigfleet_providers.Kit.Server.{Config, Server, string_key, touch, persist, persist_if}
use bigfleet_providers.Kit.Sound.Inventory.{Fits}
use bigfleet_providers.Kit.Sound.Spots.{
  AllSpotted, AsExpected, Spotted, to_machine-Spotted, refreshed-Spotted,
}
use bigfleet_providers.Kit.Reconcile.{
  refresh_substrate, merge, merge_valid, reconcile_with, reconcile_one, reconcile_all, reconcile,
}
use bigfleet_providers.Kit.Reconcile.Refresh.{refresh_substrate_lem}
use bigfleet_providers.Kit.Reconcile.Keeps.{reconcile-Fits}

module _ (cap : String → CapacityType) {S : Type 0} (rz : Bool) where
  merge-AllSpotted :
      (o : Option Machine) (i : Instance) (s : Server S)
      → get i.id s.machines ≡ o
      → InShape rz i
      → i.capacity_type ≡ cap i.id
      → AllSpotted cap s.machines
      → AllSpotted cap (merge o i s).0.machines
  unfolding merge touch
  merge-AllSpotted none i s g h e a =
      insert-Every (Spotted cap) i.id _ s.machines a (to_machine-Spotted cap rz i h e)
  merge-AllSpotted (some m) i s g h e a = elim (Bool-cases (refresh_substrate m i).1) [
    | inl y ↦ rw y written
    | inr n ↦ rw n written
  ]
    where
      written : AllSpotted cap (insert i.id (refresh_substrate m i).0 s.machines)
      written = rw (refresh_substrate_lem m i) (
          insert-Every (Spotted cap) i.id _ s.machines a
            (refreshed-Spotted cap rz i.id m i h e (a i.id m g)))

  merge_valid-AllSpotted :
      (o : Option Defect) (i : Instance) (s : Server S)
      → validate rz i ≡ o
      → i.capacity_type ≡ cap i.id
      → AllSpotted cap s.machines
      → AllSpotted cap (merge_valid o i s).0.machines
  unfolding merge_valid
  merge_valid-AllSpotted none i s v e a =
      merge-AllSpotted _ i s refl ((validate-InShape rz i).0 v) e a
  merge_valid-AllSpotted (some d) i s v e a = a

  reconcile_all-AllSpotted :
      (is : List Instance) (s : Server S)
      → AsExpected cap is
      → AllSpotted cap s.machines
      → AllSpotted cap (reconcile_all rz is s).0.machines
  unfolding reconcile_all reconcile_one
  reconcile_all-AllSpotted [] s e a = a
  reconcile_all-AllSpotted (i ∷ is) s e a =
      reconcile_all-AllSpotted is (reconcile_one rz i s).0 e.1
        (merge_valid-AllSpotted (validate rz i) i s refl e.0 a)

module _ {B S : Type 0} (cfg : Config B S) (cap : String → CapacityType) where
  -- What every record of the inventory meets, with the probability of SPOT capacity.
  pub record Contract (s : Server S) : Type 0 where
    pub fits : Fits cfg.opts.require_zone s
    pub spotted : AllSpotted cap s.machines

  pub reconcile_with-AllSpotted :
      (r : Result Error (List Instance)) (s : Server S)
      → ((is : List Instance) → r ≡ ok is → AsExpected cap is)
      → AllSpotted cap s.machines
      → AllSpotted cap (reconcile_with cfg r s).1.machines
  unfolding reconcile_with persist_if persist
  reconcile_with-AllSpotted (err x) s e a = a
  reconcile_with-AllSpotted (ok is) s e a = written (reconcile_all rz is s).1
    where
      rz : Bool
      rz = cfg.opts.require_zone

      written :
          (b : Bool) → AllSpotted cap (persist_if cfg.store b (reconcile_all rz is s).0).machines
      written true = reconcile_all-AllSpotted cap rz is s (e is refl) a
      written false = reconcile_all-AllSpotted cap rz is s (e is refl) a

  -- A reconciliation whose reports name for each machine the capacity type that it is known by keeps
  -- every record in the shape that `validate` asks for, the probability of SPOT capacity included,
  -- and sound in its host, binding and error.
  pub reconcile-Contract :
      (b : B) (s : Server S)
      → ((is : List Instance) → cfg.backend.describe b ≡ ok is → AsExpected cap is)
      → Contract s
      → Contract (reconcile cfg b s).1
  unfolding reconcile
  reconcile-Contract b s e c = record {
    fits = reconcile-Fits cfg s b c.fits;
    spotted = reconcile_with-AllSpotted (cfg.backend.describe b) s e c.spotted;
  }
