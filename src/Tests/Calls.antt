-- ===== src/Tests/Calls.antt =====
-- The theorems on calls and completions, on a server with one machine.
use bigfleet_providers.Prelude.{
  pos, String-discrete, Bool, true, false, Option, none, some, [], ◌∷◌, get, err, ◌≡◌, ◌≢◌, refl,
  arith,
}
use bigfleet_providers.Kit.Errors.{Error, Code}
use bigfleet_providers.Kit.Fence.{newer, is_zero, fence_key, FenceKey-discrete}
use bigfleet_providers.Kit.Lifecycle.{State, Kind, can_start, transitional}
use bigfleet_providers.Kit.Machine.{Machine, host_empty}
use bigfleet_providers.Kit.Instance.{to_machine, effective_state}
use bigfleet_providers.Kit.Store.{mem_store, Snapshot}
use bigfleet_providers.Kit.Server.{Server, string_key, persist, check_fence}
use bigfleet_providers.Kit.Server.Durable.{Synced, mem_store-Durable}
use bigfleet_providers.Kit.Operation.{Operation, OpResult, kind_of, run_op}
use bigfleet_providers.Kit.Operation.Outcomes.{Works, run_op-Works}
use bigfleet_providers.Kit.Dispatch.{
  Task, dispatch, fence_passed, found, idempotency, position, accept, settle, complete,
}
use bigfleet_providers.Kit.Dispatch.Fencing.{IsStale}
use bigfleet_providers.Prelude.{max_int64}
use bigfleet_providers.Prelude.Decimal.{IsInt64}
use bigfleet_providers.Kit.Messages.{ListFilter}
use bigfleet_providers.Kit.Rpc.Listing.{chosen, limited, list_lem, cursor-list}
use bigfleet_providers.Kit.Rpc.{list, cursor, is_listed, call, create, fence_of}
use bigfleet_providers.Kit.Server.{check_mark, advance}
use bigfleet_providers.Kit.Dispatch.Repeat.{Repeated}
use bigfleet_providers.Kit.Rpc.Cases.{operation_of, is_admissible, token_of, machine_of}
use bigfleet_providers.Kit.Rpc.Keeps.{call-Fits, call-Synced}
use bigfleet_providers.Kit.Rpc.Fencing.{call_stale, call-IsStale, call-Repeated}
use bigfleet_providers.Kit.Sound.Inventory.{Fits}
use bigfleet_providers.Kit.System.Keeps.{complete-Fits}
use bigfleet_providers.Kit.Lifecycle.Edges.{Begins}
use bigfleet_providers.Kit.System.Edges.{Settles, Stays, call-Stays, complete-Stays}
use bigfleet_providers.Tests.Fixture.{
  config, substrate, server, base, slot, mark, old_create, new_create, plain_create, server-Fits,
  server-Synced,
}

old-IsStale : IsStale (machine_of old_create) (token_of old_create) server
unfolding machine_of token_of fence_of is_zero newer persist get String-discrete FenceKey-discrete
old-IsStale = record { set = refl; mark = mark; known = refl; old = refl }

old-admissible : is_admissible config old_create ≡ true
unfolding is_admissible String-discrete
old-admissible = refl

new-admissible : is_admissible config new_create ≡ true
unfolding is_admissible String-discrete
new-admissible = refl

plain-admissible : is_admissible config plain_create ≡ true
unfolding is_admissible String-discrete
plain-admissible = refl

new-set : is_zero (token_of new_create) ≡ false
unfolding is_zero token_of fence_of String-discrete
new-set = refl

plain-unset : is_zero (token_of plain_create) ≡ true
unfolding is_zero token_of fence_of String-discrete
plain-unset = refl

is_some : Option Task → Bool
is_some none = false
is_some (some t) = true

ne_none : (o : Option Task) → is_some o ≡ true → o ≢ none
unfolding is_some
ne_none none h = λ e. cc
ne_none (some t) h = λ e. cc

plain-starts : (call config plain_create server).task ≢ none
unfolding call create fence_of dispatch check_fence is_zero fence_passed found idempotency position
    accept get can_start kind_of to_machine effective_state persist String-discrete host_empty
    is_some
plain-starts = ne_none _ refl

call_stale_example : call config old_create server ≡ record {
  server = server;
  reply = err (record {
    code = Code.failed_precondition;
    cause = Error.fenced (token_of old_create) (machine_of old_create) old-IsStale.mark;
  });
  task = none;
}
call_stale_example = call_stale config old_create server old-admissible old-IsStale

call-IsStale_example :
    IsStale (machine_of new_create) (token_of new_create) (call config new_create server).server
call-IsStale_example = call-IsStale config new_create server new-admissible new-set

call-Fits_example : Fits true (call config plain_create server).server
call-Fits_example = call-Fits config true plain_create server server-Fits

call-Synced_example : Synced mem_store (call config plain_create server).server
call-Synced_example = call-Synced config mem_store-Durable plain_create server server-Synced

-- A transition of the machine of the server, and the record that it finds.
abbrev task : Task
task = record {
  id = "m1";
  timeout = pos 0;
  op = Operation.create;
  snapshot = to_machine slot;
  op_id = "op-1";
}

abbrev creating : Machine
creating = record (to_machine slot) { state = State.creating }

abbrev busy : Server Snapshot
busy = record base { machines = ("m1", creating) ∷ [] }

busy-get : get "m1" busy.machines ≡ some creating
unfolding get String-discrete
busy-get = refl

base-get : get "m1" base.machines ≡ some (to_machine slot)
unfolding get String-discrete
base-get = refl

task-current : creating.state ≡ transitional (kind_of task.op)
unfolding transitional kind_of
task-current = refl

slot-not-current : (to_machine slot).state ≢ transitional (kind_of task.op)
unfolding to_machine effective_state transitional kind_of String-discrete host_empty
slot-not-current = λ e. cc

abbrev timed_out : OpResult
timed_out = err (Error.timed_out Kind.create)

run_op-Works_example :
    Works substrate creating "op-1" creating [] Operation.create
      (settle
        (kind_of Operation.create)
        (run_op substrate Operation.create creating "op-1" []).0
        creating)
      (run_op substrate Operation.create creating "op-1" []).1
run_op-Works_example = run_op-Works substrate creating "op-1" creating [] Operation.create

complete-Fits_example : Fits true (complete mem_store task timed_out server)
complete-Fits_example = complete-Fits config true task timed_out server tt server-Fits

-- A request for every machine, with a limit.
abbrev filter : ListFilter
filter = record { states = []; max_results = pos 1; since_revision = "" }

list_lem_example :
    (list base.machines filter base).machines
    ≡ limited 1 (chosen (is_listed base filter) base.machines)
list_lem_example = list_lem base.machines base filter 1 refl

rev-IsInt64 : IsInt64 base.rev
unfolding max_int64
rev-IsInt64 = (omega arith, omega arith)

cursor-list_example : cursor (list base.machines filter base).revision ≡ some base.rev
cursor-list_example = cursor-list base.machines base filter rev-IsInt64

call-Stays_example :
    Stays
      (machine_of plain_create)
      (Begins (kind_of (operation_of plain_create)))
      "m1"
      (to_machine slot)
      (call config plain_create base).server.machines
call-Stays_example = call-Stays config plain_create base "m1" (to_machine slot) base-get

complete-Stays_example :
    Stays task.id
      (Settles (kind_of task.op) timed_out)
      "m1"
      creating
      (complete mem_store task timed_out busy).machines
complete-Stays_example = complete-Stays mem_store task timed_out busy "m1" creating tt busy-get

new-starts : (call config new_create server).task ≢ none
unfolding call create fence_of dispatch check_fence check_mark advance newer is_zero fence_passed
    found idempotency position accept get can_start kind_of to_machine effective_state persist
    String-discrete FenceKey-discrete host_empty is_some
new-starts = ne_none _ refl

plain-not-stale :
    IsStale (machine_of new_create) (token_of plain_create) (call config new_create server).server
    → ⊥
plain-not-stale st = different (plain-unset' st.set)
  where
    different : true ≡ false → ⊥
    different q = cc

    plain-unset' : is_zero (token_of plain_create) ≡ false → true ≡ false
    plain-unset' q = cc (plain-unset, q)

same-machine : machine_of plain_create ≡ machine_of new_create
unfolding machine_of
same-machine = refl

same-operation : operation_of plain_create ≡ operation_of new_create
unfolding operation_of
same-operation = refl

call-Repeated_example :
    Repeated
      (call config new_create server)
      (call config plain_create (call config new_create server).server)
call-Repeated_example =
    call-Repeated config new_create plain_create server new-admissible plain-admissible same-machine
      same-operation new-starts plain-not-stale
