-- ===== src/Kit/Dispatch.antt =====
-- providerkit/server.go: `dispatch`, the shared body of the mutating calls, and the completion of a
-- transition in `runTransition`. The goroutine that `dispatch` starts is a `Task`.
pub mod Completion
pub mod Replay
pub mod Retry
pub mod Repeat
pub mod Cases
pub mod Durable
pub mod Fencing
use bigfleet_providers.Prelude.{
  ℤ, String, Bool, true, false, ◌||◌, Option, none, some, get, insert, ite, Result, ok, err,
  if◌then◌else◌,
}
use bigfleet_providers.Kit.Lifecycle.{State, State-discrete, Kind, transitional, stable, can_start}
use bigfleet_providers.Kit.Fence.{Fence}
use bigfleet_providers.Kit.Errors.{Error, Status, map_err}
use bigfleet_providers.Kit.Machine.{Machine, clone}
use bigfleet_providers.Kit.Wire.{MachineMessage, machine_to_proto}
use bigfleet_providers.Kit.Store.{Store}
use bigfleet_providers.Kit.Server.{
  Server, OpKey, op_key, string_key, touch, mint_op, check_fence, persist, persist_if,
}
use bigfleet_providers.Kit.Operation.{Operation, OpResult, kind_of, pre_effect}

pub record TransitionAck : Type 0 where
  pub operation_id : String
  pub machine : MachineMessage

-- The arguments of the goroutine `runTransition`.
pub record Task : Type 0 where
  pub id : String
  pub timeout : ℤ
  pub op : Operation
  pub snapshot : Machine
  pub op_id : String

-- The server that a call leaves, its answer, and the goroutine that it started.
pub record Outcome (S : Type 0) : Type 0 where
  pub server : Server S
  pub reply : Result Status TransitionAck
  pub task : Option Task

abbrev pub state_is : State → State → Bool
state_is a b = ite (State-discrete a b) true false

-- At the target of the kind, or progressing to it.
abbrev pub is_underway : Kind → State → Bool
is_underway k s = state_is s (transitional k) || state_is s (stable k)

abbrev pub op_key_of : String → Kind → OpKey
op_key_of id k = record { id = id; k = k }

-- The record that `m` becomes when the transition is accepted.
unfoldable pub entered : Operation → Machine → Machine
entered op m = pre_effect op (record m { state = transitional (kind_of op) })

-- What the completion makes of the record.
unfoldable pub settle : Kind → OpResult → Machine → Machine
settle k (err e) m = record m { state = State.failed; last_error = some e }
settle k (ok none) m = record m { state = stable k }
settle k (ok (some apply)) m = apply (record m { state = stable k })

module _ {S : Type 0} (st : Store S) where
  -- A call that fails after its fence has passed keeps the mark.
  unfoldable pub refuse : Error → Bool → Server S → Outcome S
  refuse e advanced s = record {
    server = persist_if st advanced s;
    reply = err (map_err e);
    task = none;
  }

  -- Step 3: the recorded operation id is answered again.
  unfoldable pub retry : String → Bool → Machine → Server S → Outcome S
  retry op_id advanced m s = record {
    server = persist_if st advanced s;
    reply = ok (record { operation_id = op_id; machine = machine_to_proto m });
    task = none;
  }

  -- Step 5: mint and record the operation, enter the transitional state, persist.
  unfoldable pub accept : String → String → ℤ → Operation → Machine → Server S → Outcome S
  unfolding entered
  accept prefix id timeout op m s =
      let (op_id, s') = mint_op prefix s in
      let m' = entered op m in
      record {
        server = persist st (
            touch id (record s' {
              ops = insert (op_key_of id (kind_of op)) op_id s'.ops;
              machines = insert id m' s'.machines;
            }));
        reply = ok (record { operation_id = op_id; machine = machine_to_proto m' });
        task =
            some
              (record { id = id; timeout = timeout; op = op; snapshot = clone m'; op_id = op_id });
      }

  -- Steps 4 and 5.
  unfoldable pub position : String → String → ℤ → Operation → Bool → Machine → Server S → Outcome S
  unfolding refuse accept
  position prefix id timeout op advanced m s =
      if can_start m.state (kind_of op)
      then accept prefix id timeout op m s
      else refuse (Error.invalid_transition (kind_of op) m.state) advanced s

  -- Step 3, by the recorded operation of the machine and kind.
  unfoldable pub idempotency :
      Option String → String → String → ℤ → Operation → Bool → Machine → Server S → Outcome S
  unfolding retry position
  idempotency none prefix id timeout op advanced m s = position prefix id timeout op advanced m s
  idempotency (some op_id) prefix id timeout op advanced m s =
      if is_underway (kind_of op) m.state
      then retry op_id advanced m s
      else position prefix id timeout op advanced m s

  -- Step 2, by the record of the machine.
  unfoldable pub found :
      Option Machine → String → String → ℤ → Operation → Bool → Server S → Outcome S
  unfolding refuse idempotency
  found none prefix id timeout op advanced s = refuse (Error.not_found id) advanced s
  found (some m) prefix id timeout op advanced s =
      idempotency (get (op_key_of id (kind_of op)) s.ops) prefix id timeout op advanced m s

  -- After the fence.
  unfoldable pub fence_passed :
      Result Error (Bool × Server S) → String → String → ℤ → Operation → Server S → Outcome S
  unfolding found
  fence_passed (err e) prefix id timeout op s = record {
    server = s;
    reply = err (map_err e);
    task = none;
  }
  fence_passed (ok (advanced, s')) prefix id timeout op s =
      found (get id s'.machines) prefix id timeout op advanced s'

  -- `dispatch`: fence, not found, idempotent retry, position, acceptance, in this order.
  unfoldable pub dispatch : String → String → Fence → ℤ → Operation → Server S → Outcome S
  unfolding fence_passed
  dispatch prefix id f timeout op s = fence_passed (check_fence id f s) prefix id timeout op s

  unfoldable pub settled : Option Machine → Task → OpResult → Server S → Server S
  unfolding settle
  settled none t r s = s
  settled (some m) t r s =
      if state_is m.state (transitional (kind_of t.op))
      then persist st
          (touch t.id (record s { machines = insert t.id (settle (kind_of t.op) r m) s.machines }))
      else s

  -- `runTransition` from its lock on: `r` is what the `select` chose, the result of the backend or
  -- the error of the timeout. A completion that finds another state is stale.
  unfoldable pub complete : Task → OpResult → Server S → Server S
  unfolding settled
  complete t r s = settled (get t.id s.machines) t r s
