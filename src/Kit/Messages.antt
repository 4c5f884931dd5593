-- ===== src/Kit/Messages.antt =====
-- The messages of the service (package pb, generated): the fields that providerkit/server.go reads
-- and writes.
use bigfleet_providers.Prelude.{ℕ, ℤ, String, List}
use bigfleet_providers.Kit.Machine.{StringMap}
use bigfleet_providers.Kit.Wire.{MachineState, MachineMessage}

pub record CreateRequest : Type 0 where
  pub machine_id : String
  pub shard_id : String
  pub shard_epoch : ℤ
  pub sequence_number : ℤ

pub record ConfigureRequest : Type 0 where
  pub machine_id : String
  pub cluster_id : String
  pub bootstrap_blob : List ℕ
  pub shard_metadata : StringMap
  pub shard_id : String
  pub shard_epoch : ℤ
  pub sequence_number : ℤ

pub record DrainRequest : Type 0 where
  pub machine_id : String
  pub grace_period_seconds : ℤ
  pub shard_id : String
  pub shard_epoch : ℤ
  pub sequence_number : ℤ

pub record DeleteRequest : Type 0 where
  pub machine_id : String
  pub shard_id : String
  pub shard_epoch : ℤ
  pub sequence_number : ℤ

-- A request of one of the four mutating calls.
pub data Request : Type 0 where
  create : CreateRequest → Request
  configure : ConfigureRequest → Request
  drain : DrainRequest → Request
  delete : DeleteRequest → Request

-- `since_revision` is the text of the bytes.
pub record ListFilter : Type 0 where
  pub states : List MachineState
  pub max_results : ℤ
  pub since_revision : String

pub record MachineList : Type 0 where
  pub machines : List MachineMessage
  pub revision : String
