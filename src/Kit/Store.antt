-- ===== src/Kit/Store.antt =====
-- providerkit/store.go: the persisted snapshot, the interface of a store, and the store in memory.
use bigfleet_providers.Prelude.{ℤ, pos, String, Option, none, List, [], map, Result, ok}
use bigfleet_providers.Kit.Errors.{Error}
use bigfleet_providers.Kit.Machine.{Machine, clone}

pub record OpRecord : Type 0 where
  pub machine_id : String
  pub kind : String
  pub operation_id : String

pub record FenceRecord : Type 0 where
  pub shard_id : String
  pub machine_id : String
  pub epoch : ℤ
  pub sequence : ℤ

pub record Snapshot : Type 0 where
  pub machines : List Machine
  pub fences : List FenceRecord
  pub ops : List OpRecord
  pub rev : ℤ
  pub next_op : ℤ

-- The interface `Store`, over the state `S` of the store. `save` returns the state that it leaves
-- and its error.
pub record Store (S : Type 0) : Type 0 where
  pub load : S → Result Error Snapshot
  pub save : Snapshot → S → S × Option Error

-- `Snapshot.clone`.
unfoldable pub clone_snapshot : Snapshot → Snapshot
clone_snapshot s = record {
  machines = map clone s.machines;
  fences = s.fences;
  ops = s.ops;
  rev = s.rev;
  next_op = s.next_op;
}

-- The zero value of a Snapshot: `NewMemStore` starts from it.
abbrev pub empty_snapshot : Snapshot
empty_snapshot = record { machines = []; fences = []; ops = []; rev = pos 0; next_op = pos 0 }

unfoldable pub mem_load : Snapshot → Result Error Snapshot
mem_load snap = ok (clone_snapshot snap)

unfoldable pub mem_save : Snapshot → Snapshot → Snapshot × Option Error
mem_save s snap = (clone_snapshot s, none)

-- `MemStore` keeps the last snapshot that was saved.
abbrev pub mem_store : Store Snapshot
mem_store = record { load = mem_load; save = mem_save }
