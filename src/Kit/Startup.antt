-- ===== src/Kit/Startup.antt =====
-- providerkit/server.go: `New`, with the seeding of a fresh store and the recovery of interrupted
-- transitions. A nil backend or store is excluded by the types.
pub mod Keeps
pub mod Recovery
pub mod Seeding
use bigfleet_providers.Prelude.{
  pos, eqb_ℤ, String, Bool, true, false, ◌&&◌, ◌||◌, Option, none, some, List, [], ◌∷◌, get, insert,
  Result, ok, err, ◌>>=◌, if◌then◌else◌,
}
use bigfleet_providers.Kit.Lifecycle.{State}
use bigfleet_providers.Kit.Errors.{Error, Defect}
use bigfleet_providers.Kit.Machine.{Machine}
use bigfleet_providers.Kit.Instance.{Instance, validate, to_machine}
use bigfleet_providers.Kit.Store.{Snapshot}
use bigfleet_providers.Kit.Server.{
  Config, Server, string_key, with_defaults, new_server, touch, persist, persist_if, load_snapshot,
}

abbrev pub is_transitional : State → Bool
is_transitional State.creating = true
is_transitional State.configuring = true
is_transitional State.draining = true
is_transitional State.deleting = true
is_transitional _ = false

-- `transitionalKind`.
unfoldable pub transitional_kind : State → String
transitional_kind State.creating = "create"
transitional_kind State.configuring = "configure"
transitional_kind State.draining = "drain"
transitional_kind State.deleting = "delete"
transitional_kind _ = "unknown"

abbrev pub is_nil : {A : Type 0} → List A → Bool
is_nil [] = true
is_nil (x ∷ xs) = false

-- `isFresh`.
unfoldable pub is_fresh : Snapshot → Bool
is_fresh s = is_nil s.machines && is_nil s.fences && is_nil s.ops && eqb_ℤ s.rev (pos 0)

-- The record of an interrupted transition.
unfoldable pub interrupted : Machine → Machine
interrupted m = record m {
  last_error = some (Error.interrupted (transitional_kind m.state));
  state = State.failed;
}

module _ {S : Type 0} where
  unfoldable pub recover_machine : Option Machine → String → Server S → Server S × Bool
  recover_machine none id s = (s, false)
  recover_machine (some m) id s =
      if is_transitional m.state
      then (touch m.id (record s { machines = insert id (interrupted m) s.machines }), true)
      else (s, false)

  -- The loop of `recoverInterrupted`, over the keys of the map in the order of the runtime.
  unfoldable pub recover_all : List String → Server S → Server S × Bool
  unfolding recover_machine
  recover_all [] s = (s, false)
  recover_all (id ∷ ids) s =
      let (s', changed) = recover_machine (get id s.machines) id s in
      let (s'', more) = recover_all ids s' in (s'', changed || more)

  unfoldable pub seed_machine : Option Machine → Instance → Server S → Result Error (Server S)
  seed_machine (some dup) i s = err (Error.invalid_machine (Defect.duplicate_id i.id))
  seed_machine none i s =
      ok (touch i.id (record s { machines = insert i.id (to_machine i) s.machines }))

  unfoldable pub seed_valid : Option Defect → Instance → Server S → Result Error (Server S)
  unfolding seed_machine
  seed_valid none i s = seed_machine (get i.id s.machines) i s
  seed_valid (some defect) i s = err (Error.invalid_machine defect)

  -- The loop of `seedFromBackend`: the first bad instance ends it.
  unfoldable pub seed_all : Bool → List Instance → Server S → Result Error (Server S)
  unfolding seed_valid
  seed_all require_zone [] s = ok s
  seed_all require_zone (i ∷ is) s =
      seed_valid (validate require_zone i) i s >>= seed_all require_zone is

module _ {B S : Type 0} (cfg : Config B S) where
  -- `recoverInterrupted`.
  unfoldable pub recover : List String → Server S → Server S
  recover order s = let (s', changed) = recover_all order s in persist_if cfg.store changed s'

  unfoldable pub seed_with : Result Error (List Instance) → Server S → Result Error (Server S)
  seed_with (err e) s = err (Error.describe_failed e)
  seed_with (ok instances) s = do
    s' ← seed_all cfg.opts.require_zone instances s
    ok (persist cfg.store s')

  -- `seedFromBackend`.
  unfoldable pub seed : B → Server S → Result Error (Server S)
  unfolding seed_with
  seed b s = seed_with (cfg.backend.describe b) s

  unfoldable pub start : Result Error Snapshot → List String → B → S → Result Error (Server S)
  unfolding recover seed
  start (err e) order b store = err (Error.load_failed e)
  start (ok snap) order b store =
      if is_fresh snap
      then seed b (new_server store)
      else ok (recover order (load_snapshot snap (new_server store)))

-- The configuration that `New` makes of the one that it is given.
abbrev pub effective : {B S : Type 0} → Config B S → Config B S
effective cfg = record cfg { opts = with_defaults cfg.opts }

-- `New`, on the state `b` of the substrate and the state `store` of the store; `order` is the order
-- in which the runtime goes through the loaded machines.
unfoldable pub new : {B S : Type 0} → Config B S → List String → B → S → Result Error (Server S)
unfolding start
new cfg order b store = start (effective cfg) (cfg.store.load store) order b store
