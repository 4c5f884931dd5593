-- ===== src/Kit/Server.antt =====
-- providerkit/server.go: the state of the server, its options, and the helpers that run under its
-- lock. A Go map is an association list, and a record behind a pointer is a value: the code hands
-- out copies only.
pub mod Durable
pub mod RoundTrip
use bigfleet_providers.Prelude.{
  ℤ, pos, ltb_ℤ, eqb_ℤ, inc, String, String-discrete, Bool, true, false, not, ◌&&◌, Option, none,
  some, List, [], ◌∷◌, map, Key, get, insert, Result, ok, err, if◌then◌else◌,
}
use Prim.Native.String.{◌++◌}
use bigfleet_providers.Prelude.Decimal.{format_int}
use bigfleet_providers.Kit.Lifecycle.{Kind, Kind-discrete, kind_name, kind_of_name}
use bigfleet_providers.Kit.Fence.{Fence, FenceKey, FenceMark, is_zero, is_empty, newer, fence_key}
use bigfleet_providers.Kit.Errors.{Error}
use bigfleet_providers.Kit.Machine.{Machine, clone}
use bigfleet_providers.Kit.Instance.{Backend}
use bigfleet_providers.Kit.Store.{OpRecord, FenceRecord, Snapshot, Store}

pub record OpKey : Type 0 where
  pub id : String
  pub k : Kind

unfoldable pub OpKey-discrete : Discrete OpKey
OpKey-discrete = hlevel (String-discrete, Kind-discrete)

instance abbrev pub op_key : Key OpKey
op_key = record { same = OpKey-discrete }

instance abbrev pub string_key : Key String
string_key = record { same = String-discrete }

-- Durations are nanoseconds in an int64.
pub record Timeouts : Type 0 where
  pub create : ℤ
  pub configure : ℤ
  pub drain : ℤ
  pub delete : ℤ

pub record Options : Type 0 where
  pub timeouts : Timeouts
  pub require_zone : Bool
  pub reconcile_timeout : ℤ
  pub operation_id_prefix : String

default_duration : ℤ → ℤ → ℤ
default_duration d given = if eqb_ℤ given (pos 0) then d else given

-- `Options.withDefaults`.
unfoldable pub with_defaults : Options → Options
unfolding default_duration
with_defaults o = record {
  timeouts = record {
    create = default_duration (pos 300000000000) o.timeouts.create;
    configure = default_duration (pos 300000000000) o.timeouts.configure;
    drain = default_duration (pos 600000000000) o.timeouts.drain;
    delete = default_duration (pos 300000000000) o.timeouts.delete;
  };
  require_zone = o.require_zone;
  reconcile_timeout = default_duration (pos 30000000000) o.reconcile_timeout;
  operation_id_prefix = if is_empty o.operation_id_prefix then "op" else o.operation_id_prefix;
}

-- What a server is constructed from, over the states of the substrate and of the store.
pub record Config (B S : Type 0) : Type 0 where
  pub opts : Options
  pub backend : Backend B
  pub store : Store S

-- The fields below the lock, with the state of the store.
pub record Server (S : Type 0) : Type 0 where
  pub machines : List (String × Machine)
  pub fences : List (FenceKey × FenceMark)
  pub ops : List (OpKey × String)
  pub last_mod : List (String × ℤ)
  pub rev : ℤ
  pub next_op : ℤ
  pub store : S

unfoldable pub new_server : {S : Type 0} → S → Server S
new_server store = record {
  machines = [];
  fences = [];
  ops = [];
  last_mod = [];
  rev = pos 0;
  next_op = pos 0;
  store = store;
}

unfoldable pub fence_record : FenceKey × FenceMark → FenceRecord
fence_record (key, mark) = record {
  shard_id = key.shard_id;
  machine_id = key.machine_id;
  epoch = mark.epoch;
  sequence = mark.sequence;
}

op_record : OpKey × String → OpRecord
op_record (key, op_id) = record {
  machine_id = key.id;
  kind = kind_name key.k;
  operation_id = op_id;
}

-- `prefix + "-" + strconv.FormatInt(n, 10)`
unfoldable pub op_id_text : String → ℤ → String
op_id_text prefix n = prefix ++ ("-" ++ format_int n)

module _ {S : Type 0} where
  -- `touchLocked`.
  unfoldable pub touch : String → Server S → Server S
  touch id s = record s { rev = inc s.rev; last_mod = insert id (inc s.rev) s.last_mod }

  -- `mintOpLocked`: the operation id, and the server with the counter advanced.
  unfoldable pub mint_op : String → Server S → String × Server S
  mint_op prefix s = (op_id_text prefix (inc s.next_op), record s { next_op = inc s.next_op })

  unfoldable pub advance : FenceKey → Fence → Server S → Server S
  advance key f s = record s {
    fences = insert key (record { epoch = f.shard_epoch; sequence = f.sequence_number }) s.fences;
  }

  -- A known mark refuses a token that is not newer.
  unfoldable pub check_mark :
      Option FenceMark → String → Fence → Server S → Result Error (Bool × Server S)
  unfolding advance
  check_mark none id f s =
      ok (true, advance (record { shard_id = f.shard_id; machine_id = id }) f s)
  check_mark (some mark) id f s =
      if not (newer mark f)
      then err (Error.fenced f id mark)
      else ok (true, advance (record { shard_id = f.shard_id; machine_id = id }) f s)

  -- `checkFenceLocked`: whether the high-water mark advanced, or the token is stale.
  unfoldable pub check_fence : String → Fence → Server S → Result Error (Bool × Server S)
  unfolding check_mark
  check_fence id f s =
      if is_zero f
      then ok (false, s)
      else check_mark (get (record { shard_id = f.shard_id; machine_id = id }) s.fences) id f s

  -- `snapshotLocked`.
  unfoldable pub snapshot : Server S → Snapshot
  unfolding fence_record op_record
  snapshot s = record {
    machines = map (λ e. e.1) s.machines;
    fences = map fence_record s.fences;
    ops = map op_record s.ops;
    rev = s.rev;
    next_op = s.next_op;
  }

  load_machines : ℤ → List Machine → Server S → Server S
  load_machines rev [] s = s
  load_machines rev (m ∷ ms) s = load_machines rev ms (record s {
    machines = insert m.id (clone m) s.machines;
    last_mod = insert m.id rev s.last_mod;
  })

  load_fences : List FenceRecord → Server S → Server S
  load_fences [] s = s
  load_fences (r ∷ rs) s = load_fences rs (record s {
    fences =
        insert (record { shard_id = r.shard_id; machine_id = r.machine_id })
          (record { epoch = r.epoch; sequence = r.sequence }) s.fences;
  })

  load_ops : List OpRecord → Server S → Server S
  load_ops [] s = s
  load_ops (r ∷ rs) s = load_ops rs (record s {
    ops = insert (record { id = r.machine_id; k = kind_of_name r.kind }) r.operation_id s.ops;
  })

  -- `loadSnapshot`.
  unfoldable pub load_snapshot : Snapshot → Server S → Server S
  unfolding load_machines load_fences load_ops
  load_snapshot snap s = load_ops snap.ops (
      load_fences snap.fences (
        load_machines snap.rev snap.machines (record s { rev = snap.rev; next_op = snap.next_op })))

module _ {S : Type 0} (st : Store S) where
  -- `persistLocked`: an error of the store is logged only.
  unfoldable pub persist : Server S → Server S
  persist s = record s { store = (st.save (snapshot s) s.store).0 }

  -- `persistIf`.
  unfoldable pub persist_if : Bool → Server S → Server S
  persist_if cond s = if cond then persist s else s
