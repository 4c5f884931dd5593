-- ===== src/Kit/Server/Durable.antt =====
-- A store that keeps what it is given, and a server that has written its state through.
use mathlib.Core.Path.{ap₂}
use bigfleet_providers.Prelude.{List, [], ◌∷◌, ok, ◌≡◌, refl, ap, ◌∙◌, map}
use bigfleet_providers.Kit.Machine.{Machine, clone, clone_lem}
use bigfleet_providers.Kit.Store.{Snapshot, Store, clone_snapshot, mem_load, mem_save, mem_store}
use bigfleet_providers.Kit.Server.{Server, snapshot, persist}

-- The contract of `Store`, for saves that succeed: what is saved is loaded.
pub record Durable {S : Type 0} (st : Store S) : Type 0 where
  pub load-save : (snap : Snapshot) (x : S) → st.load (st.save snap x).0 ≡ ok snap

-- The store holds the state of the server.
abbrev pub Synced : {S : Type 0} → Store S → Server S → Type 0
Synced st s = st.load s.store ≡ ok (snapshot s)

-- After `persistLocked` the store holds the state of the server.
pub persist-Synced :
    {S : Type 0} (st : Store S) (s : Server S) → Durable st → Synced st (persist st s)
unfolding persist snapshot
persist-Synced st s d = d.load-save (snapshot s) s.store

map-clone : (ms : List Machine) → map clone ms ≡ ms
map-clone [] = refl
map-clone (m ∷ ms) = ap₂ ◌∷◌ (clone_lem m) (map-clone ms)

clone_snapshot_lem : (snap : Snapshot) → clone_snapshot snap ≡ snap
unfolding clone_snapshot
clone_snapshot_lem snap = ap (λ ms. record snap { machines = ms }) (map-clone snap.machines)

-- `MemStore` keeps what it is given, through both of its copies.
pub mem_store-Durable : Durable mem_store
unfolding mem_load mem_save
mem_store-Durable = record {
  load-save = λ snap x. ap ok (clone_snapshot_lem (clone_snapshot snap) ∙ clone_snapshot_lem snap);
}
