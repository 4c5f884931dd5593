-- ===== src/Kit/Rpc.antt =====
-- providerkit/server.go: the six calls of the service.
pub mod Keeps
pub mod Fencing
pub mod Listing
pub mod Cases
use bigfleet_providers.Prelude.{
  ℕ, suc, ℤ, pos, negsuc, ltb, leb, leb_ℤ, String, Bool, true, false, not, ◌&&◌, ◌||◌, Option, none,
  some, List, [], ◌∷◌, get, Result, ok, err, if◌then◌else◌,
}
use bigfleet_providers.Prelude.Decimal.{format_int, parse_int}
use bigfleet_providers.Kit.Lifecycle.{State}
use bigfleet_providers.Kit.Fence.{Fence, is_empty}
use bigfleet_providers.Kit.Errors.{Error, Code, Status}
use bigfleet_providers.Kit.Machine.{Machine, clone_map}
use bigfleet_providers.Kit.Wire.{MachineState, MachineMessage, state_from_proto, machine_to_proto}
use bigfleet_providers.Kit.Messages.{
  CreateRequest, ConfigureRequest, DrainRequest, DeleteRequest, Request, ListFilter, MachineList,
}
use bigfleet_providers.Kit.Server.{Config, Server, string_key}
use bigfleet_providers.Kit.Operation.{Operation}
use bigfleet_providers.Kit.Dispatch.{Outcome, state_is, dispatch}

-- `fenceOf`.
unfoldable pub fence_of : String → ℤ → ℤ → Fence
fence_of shard_id epoch seq = record {
  shard_id = shard_id;
  shard_epoch = epoch;
  sequence_number = seq;
}

module _ {S : Type 0} where
  reject : Code → String → Server S → Outcome S
  reject code text s = record {
    server = s;
    reply = err (record { code = code; cause = Error.other text });
    task = none;
  }

module _ {B S : Type 0} (cfg : Config B S) where
  unfoldable pub create : CreateRequest → Server S → Outcome S
  unfolding reject
  create req s =
      if is_empty req.machine_id
      then reject Code.invalid_argument "machine_id required" s
      else dispatch cfg.store cfg.opts.operation_id_prefix req.machine_id
          (fence_of req.shard_id req.shard_epoch req.sequence_number) cfg.opts.timeouts.create
          Operation.create s

  unfoldable pub configure : ConfigureRequest → Server S → Outcome S
  unfolding reject
  configure req s =
      if is_empty req.machine_id
      then reject Code.invalid_argument "machine_id required" s
      else dispatch cfg.store cfg.opts.operation_id_prefix req.machine_id
          (fence_of req.shard_id req.shard_epoch req.sequence_number) cfg.opts.timeouts.configure
          (Operation.configure req.cluster_id req.bootstrap_blob (clone_map req.shard_metadata)) s

  unfoldable pub drain : DrainRequest → Server S → Outcome S
  unfolding reject
  drain req s =
      if is_empty req.machine_id
      then reject Code.invalid_argument "machine_id required" s
      else dispatch cfg.store cfg.opts.operation_id_prefix req.machine_id
          (fence_of req.shard_id req.shard_epoch req.sequence_number) cfg.opts.timeouts.drain
          (Operation.drain req.grace_period_seconds) s

  -- `s.canDelete`: the backend implements `Deleter`.
  unfoldable pub can_delete : Bool
  can_delete = elim cfg.backend.delete_instance [ none ↦ false | some d ↦ true ]

  unfoldable pub delete : DeleteRequest → Server S → Outcome S
  unfolding reject can_delete
  delete req s =
      if is_empty req.machine_id
      then reject Code.invalid_argument "machine_id required" s
      else if not can_delete
      then reject Code.unimplemented "this provider does not support Delete" s
      else dispatch cfg.store cfg.opts.operation_id_prefix req.machine_id
          (fence_of req.shard_id req.shard_epoch req.sequence_number) cfg.opts.timeouts.delete
          Operation.delete s

  -- The call that a request makes.
  unfoldable pub call : Request → Server S → Outcome S
  unfolding create configure drain delete
  call (Request.create req) s = create req s
  call (Request.configure req) s = configure req s
  call (Request.drain req) s = drain req s
  call (Request.delete req) s = delete req s

-- `Get`, by the id of the request.
unfoldable pub get_machine : {S : Type 0} → String → Server S → Result Status MachineMessage
get_machine id s =
    if is_empty id
    then err (record { code = Code.invalid_argument; cause = Error.other "id required" })
    else elim (get id s.machines) [
      | none ↦ err (record { code = Code.not_found; cause = Error.not_found id })
      | some m ↦ ok (machine_to_proto m)
    ]

any_state : State → List MachineState → Bool
any_state s [] = false
any_state s (w ∷ ws) = state_is (state_from_proto w) s || any_state s ws

-- `stateMatches`.
unfoldable pub state_matches : State → List MachineState → Bool
unfolding any_state
state_matches s [] = true
state_matches s (w ∷ ws) = any_state s (w ∷ ws)

-- The cursor of the request: an empty or unreadable one is none.
unfoldable pub cursor : String → Option ℤ
cursor b = if is_empty b then none else parse_int b

-- `s.lastMod[id]`, 0 where the id is missing.
unfoldable pub modified : {S : Type 0} → Server S → String → ℤ
modified s id = elim (get id s.last_mod) [ none ↦ pos 0 | some r ↦ r ]

-- `hasSince && s.lastMod[id] <= since`
is_old : Option ℤ → ℤ → Bool
is_old none r = false
is_old (some since) r = leb_ℤ r since

-- Whether the loop of `List` skips an entry.
unfoldable pub is_listed : {S : Type 0} → Server S → ListFilter → String × Machine → Bool
unfolding is_old
is_listed s req (id, m) =
    not (is_old (cursor req.since_revision) (modified s id)) && state_matches m.state req.states

-- `maxResults > 0 && n >= maxResults`
is_full : ℤ → ℕ → Bool
is_full (pos max) n = ltb 0 max && leb max n
is_full (negsuc max) n = false

-- The loop of `List`: `n` records are in the answer.
collect : (String × Machine → Bool) → ℤ → ℕ → List (String × Machine) → List MachineMessage
unfolding is_full
collect p max n [] = []
collect p max n (e ∷ es) =
    let skipped = collect p max n es in
    let more = collect p max (suc n) es in
    if not (p e) then skipped else machine_to_proto e.1 ∷ (if is_full max (suc n) then [] else more)

-- `List`; `order` is the order in which the runtime goes through the map of the machines.
unfoldable pub list : {S : Type 0} → List (String × Machine) → ListFilter → Server S → MachineList
unfolding collect is_listed
list order req s = record {
  machines = collect (is_listed s req) req.max_results 0 order;
  revision = format_int s.rev;
}
