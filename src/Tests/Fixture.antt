-- ===== src/Tests/Fixture.antt =====
-- A substrate of which every call succeeds, a server with one machine, and requests for it.
use bigfleet_providers.Prelude.{
  pos, String-discrete, true, none, some, List, [], ◌∷◌, get, insert, ok, refl,
}
use bigfleet_providers.Prelude.Float.{one_float, unit}
use bigfleet_providers.Kit.Lifecycle.{State, CapacityType}
use bigfleet_providers.Kit.Fence.{FenceMark}
use bigfleet_providers.Kit.Machine.{HostRef, no_host_ref, host_empty}
use bigfleet_providers.Kit.Instance.{Instance, Backend, validate, effective_state, to_machine}
use bigfleet_providers.Kit.Instance.Shape.{InShape, validate-InShape}
use bigfleet_providers.Kit.Store.{Snapshot, empty_snapshot, mem_store}
use bigfleet_providers.Kit.Server.{Config, Options, Server, new_server, persist, string_key}
use bigfleet_providers.Kit.Server.Durable.{Synced, mem_store-Durable, persist-Synced}
use bigfleet_providers.Kit.Messages.{Request}
use bigfleet_providers.Kit.Sound.Inventory.{Fits, Fits-insert, persist-Fits}
use bigfleet_providers.Kit.Sound.Reports.{to_machine-Sound}
use bigfleet_providers.Kit.Startup.Keeps.{new_server-Fits}

abbrev pub slot : Instance
slot = record {
  id = "m1";
  host = no_host_ref;
  state = State.unspecified;
  instance_type = "m6i.large";
  zone = "a";
  capacity_type = CapacityType.spot;
  price_per_hour = one_float;
  interruption_probability = one_float;
  resources = none;
  allocatable = none;
  labels = some (("gpu", "") ∷ []);
}

abbrev pub a_host : HostRef
a_host = record { provider = "sim"; ref = "h1" }

-- The state of the substrate is what it describes.
abbrev pub substrate : Backend (List Instance)
substrate = record {
  describe = ok;
  create_instance = λ r b. (ok (record { host = a_host; resources = none; allocatable = none }), b);
  configure_instance = λ r b. (ok tt, b);
  drain_instance = λ r b. (ok tt, b);
  delete_instance = none;
  confirm_node_ready = none;
}

abbrev pub options : Options
options = record {
  timeouts = record { create = pos 0; configure = pos 0; drain = pos 0; delete = pos 0 };
  require_zone = true;
  reconcile_timeout = pos 0;
  operation_id_prefix = "";
}

abbrev pub config : Config (List Instance) Snapshot
config = record { opts = options; backend = substrate; store = mem_store }

abbrev pub mark : FenceMark
mark = record { epoch = pos 5; sequence = pos 3 }

-- The machine of `slot`, with a mark of the shard "s".
abbrev pub base : Server Snapshot
base = record {
  machines = ("m1", to_machine slot) ∷ [];
  fences = (record { shard_id = "s"; machine_id = "m1" }, mark) ∷ [];
  ops = [];
  last_mod = [];
  rev = pos 1;
  next_op = pos 0;
  store = empty_snapshot;
}

abbrev pub server : Server Snapshot
server = persist mem_store base

pub slot-InShape : InShape true slot
unfolding validate effective_state String-discrete host_empty unit
slot-InShape = (validate-InShape true slot).0 refl

pub base-Fits : Fits true base
unfolding new_server insert get
base-Fits =
    Fits-insert true (new_server empty_snapshot) base "m1" (to_machine slot) refl tt (refl, tt)
      (to_machine-Sound true slot slot-InShape) (new_server-Fits true empty_snapshot)

pub server-Fits : Fits true server
server-Fits = persist-Fits true mem_store base base-Fits

pub server-Synced : Synced mem_store server
server-Synced = persist-Synced mem_store base mem_store-Durable

-- Requests for the machine with an old token, and without one.
abbrev pub old_create : Request
old_create =
    Request.create
      (record { machine_id = "m1"; shard_id = "s"; shard_epoch = pos 5; sequence_number = pos 3 })

abbrev pub new_create : Request
new_create =
    Request.create
      (record { machine_id = "m1"; shard_id = "s"; shard_epoch = pos 6; sequence_number = pos 0 })

abbrev pub plain_create : Request
plain_create =
    Request.create
      (record { machine_id = "m1"; shard_id = ""; shard_epoch = pos 0; sequence_number = pos 0 })
