-- ===== src/Tests/Life.antt =====
-- The theorems on the life of a server: its start, its store, its refreshes and its restarts.
use bigfleet_providers.Prelude.{
  ℤ, pos, negsuc, zero, suc, ap, String, String-discrete, Bool, true, false, Option, none, some,
  List, [], ◌∷◌, get, insert, Result, ok, err, ◌≡◌, ◌≢◌, ◌↔◌, refl, ite,
}
use bigfleet_providers.Prelude.Float.{unit}
use bigfleet_providers.Kit.Errors.{Error}
use bigfleet_providers.Kit.Lifecycle.{State, Kind, can_start}
use bigfleet_providers.Kit.Lifecycle.Edges.{origin, can_start-origin}
use bigfleet_providers.Kit.Machine.{Machine, host_empty, clone_map}
use bigfleet_providers.Kit.Instance.{Instance, validate, to_machine, effective_state}
use bigfleet_providers.Kit.Instance.Shape.{InShape, validate-InShape}
use bigfleet_providers.Kit.Store.{
  mem_store, mem_load, Snapshot, FenceRecord, OpRecord, empty_snapshot, clone_snapshot,
}
use bigfleet_providers.Kit.FileStore.{Codec, Disk, Faults, save_file}
use bigfleet_providers.Kit.FileStore.Atomic.{Faithful, Kept, save_file-Kept}
use bigfleet_providers.Kit.Server.{
  Server, string_key, snapshot, load_snapshot, new_server, with_defaults,
}
use bigfleet_providers.Kit.Server.Durable.{Synced, mem_store-Durable}
use bigfleet_providers.Kit.Server.RoundTrip.{stamps, load_snapshot-snapshot}
use bigfleet_providers.Kit.Reconcile.{
  reconcile, reconcile_all, reconcile_one, merge, refresh_substrate, maps_equal, value_at,
}
use bigfleet_providers.Kit.Reconcile.Keeps.{reconcile_all_unchanged, reconcile-Synced}
use bigfleet_providers.Kit.Sound.{Sound}
use bigfleet_providers.Kit.Sound.Inventory.{Fits-KeyIsId}
use bigfleet_providers.Kit.Sound.Reports.{to_machine-Sound}
use bigfleet_providers.Kit.Startup.{is_fresh, new, start, recover, seed, seed_all}
use bigfleet_providers.Kit.Startup.Keeps.{Started, OnOk, Source, fresh, start-IsStarted}
use bigfleet_providers.Kit.Startup.Recovery.{is_listed, after_crash, get-recover}
use bigfleet_providers.Kit.System.{Process, Reach, request, boot, next, after_call}
use bigfleet_providers.Tests.Fixture.{
  config, server, base, slot, slot-InShape, plain_create, base-Fits, server-Synced,
}

pub loaded : mem_store.load empty_snapshot ≡ ok empty_snapshot
unfolding mem_load clone_snapshot
loaded = refl

pub is-fresh : is_fresh empty_snapshot ≡ true
unfolding is_fresh
is-fresh = refl

abbrev value : Result Error (Server Snapshot) → Server Snapshot
value (ok s) = s
value (err e) = base

is_ok : Result Error (Server Snapshot) → Bool
is_ok (ok s) = true
is_ok (err e) = false

ok_value : (r : Result Error (Server Snapshot)) → is_ok r ≡ true → r ≡ ok (value r)
unfolding is_ok
ok_value (ok s) h = refl
ok_value (err e) h = cc

-- The server of a first start.
unfoldable pub first : Server Snapshot
first = value (new config [] (slot ∷ []) empty_snapshot)

pub first-started : new config [] (slot ∷ []) empty_snapshot ≡ ok first
unfolding first new start with_defaults is_ok seed seed_all validate effective_state get mem_load
    clone_snapshot is_fresh host_empty String-discrete unit new_server
first-started = ok_value (new config [] (slot ∷ []) empty_snapshot) refl

abbrev pub booted : Process (List Instance) Snapshot
booted = record { server = first; substrate = slot ∷ []; running = []; abandoned = [] }

pub booted-Reach : Reach config booted
booted-Reach = boot [] (slot ∷ []) empty_snapshot empty_snapshot first loaded is-fresh first-started

pub called-Reach : Reach config (after_call config plain_create booted)
called-Reach = next booted-Reach (request plain_create)

empty-Source : Source config (mem_store.load empty_snapshot)
empty-Source = rw loaded (fresh is-fresh)

start-IsStarted_example :
    OnOk
      (Started mem_store true)
      (start config (mem_store.load empty_snapshot) [] (slot ∷ []) empty_snapshot)
start-IsStarted_example =
    start-IsStarted config mem_store-Durable [] (slot ∷ []) empty_snapshot empty-Source

abbrev creating : Machine
creating = record (to_machine slot) { state = State.creating }

abbrev busy : Server Snapshot
busy = record base { machines = ("m1", creating) ∷ [] }

listed : is_listed "m1" ("m1" ∷ []) ≡ true
unfolding is_listed String-discrete
listed = refl

get-recover_example :
    get "m1" (recover config ("m1" ∷ []) busy).machines ≡ after_crash (get "m1" busy.machines)
get-recover_example = get-recover config ("m1" ∷ []) busy "m1" listed

load_snapshot-snapshot_example :
    load_snapshot (snapshot base) (new_server empty_snapshot)
    ≡ record base { last_mod = stamps base.rev base.machines; store = empty_snapshot }
load_snapshot-snapshot_example =
    load_snapshot-snapshot base empty_snapshot (Fits-KeyIsId base-Fits) base-Fits.machines
      base-Fits.fences base-Fits.ops

-- What the server knows already.
quiet : (reconcile_all true (slot ∷ []) base).1 ≡ false
unfolding reconcile_all reconcile_one merge refresh_substrate insert maps_equal validate
    effective_state to_machine host_empty get String-discrete unit clone_map value_at
quiet = refl

reconcile_all_unchanged_example : (reconcile_all true (slot ∷ []) base).0 ≡ base
reconcile_all_unchanged_example = reconcile_all_unchanged true (slot ∷ []) base quiet

reconcile-Synced_example : Synced mem_store (reconcile config (slot ∷ []) server).1
reconcile-Synced_example =
    reconcile-Synced config server (slot ∷ []) mem_store-Durable server-Synced

slot-Sound : Sound true "m1" (to_machine slot)
slot-Sound = to_machine-Sound true slot slot-InShape

validate-InShape_example : (validate true slot ≡ none) ↔ InShape true slot
validate-InShape_example = validate-InShape true slot

startable : can_start State.idle Kind.delete ≡ true
unfolding can_start
startable = refl

can_start-origin_example : State.idle ≡ origin Kind.delete
can_start-origin_example = can_start-origin State.idle Kind.delete startable

-- A codec of the one snapshot that is written here.
encode_fields : List Machine → List FenceRecord → List OpRecord → ℤ → ℤ → Option String
encode_fields [] [] [] (pos zero) (pos zero) = some "{}"
encode_fields _ _ _ _ _ = none

abbrev codec : Codec
codec = record {
  encode = λ s. encode_fields s.machines s.fences s.ops s.rev s.next_op;
  decode = λ t. some empty_snapshot;
}

encode_fields_lem :
    (ms : List Machine) (fs : List FenceRecord) (os : List OpRecord) (rev next_op : ℤ)
    (text : String)
    → encode_fields ms fs os rev next_op ≡ some text
    → (text ≡ "{}")
      × (empty_snapshot
          ≡ record { machines = ms; fences = fs; ops = os; rev = rev; next_op = next_op })
unfolding encode_fields
encode_fields_lem [] [] [] (pos zero) (pos zero) text h = (cc, refl)
encode_fields_lem (m ∷ ms) fs os rev next_op text h = cc
encode_fields_lem [] (f ∷ fs) os rev next_op text h = cc
encode_fields_lem [] [] (o ∷ os) rev next_op text h = cc
encode_fields_lem [] [] [] (pos (suc n)) next_op text h = cc
encode_fields_lem [] [] [] (negsuc n) next_op text h = cc
encode_fields_lem [] [] [] (pos zero) (pos (suc n)) text h = cc
encode_fields_lem [] [] [] (pos zero) (negsuc n) text h = cc

braces-full : (text : String) → text ≡ "{}" → text ≢ ""
unfolding String-discrete
braces-full text e = λ h. apart (cc (e, h))
  where
    empty : String → Bool
    empty t = ite (String-discrete t "") true false

    apart : Path String "{}" "" → ⊥
    apart h = different (ap empty h)
      where
        different : Path Bool false true → ⊥
        different q = cc

codec-Faithful : Faithful codec
codec-Faithful = record {
  decodes = λ s text h. ap some (encode_fields_lem _ _ _ _ _ text h).1;
  full = λ s text h. braces-full text (encode_fields_lem _ _ _ _ _ text h).0;
}

abbrev no_faults : Faults
no_faults = record {
  create = false;
  write = false;
  torn = "";
  sync = false;
  close = false;
  rename = false;
}

abbrev no_file : Disk
no_file = record { file = none; temporary = none; unreadable = false }

save_file-Kept_example :
    Kept codec codec-Faithful no_faults empty_snapshot no_file
      (save_file codec no_faults empty_snapshot no_file)
save_file-Kept_example = save_file-Kept codec codec-Faithful no_faults empty_snapshot no_file refl
