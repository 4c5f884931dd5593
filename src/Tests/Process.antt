-- ===== src/Tests/Process.antt =====
-- The theorems on the life of a process, at a first start and a call.
use bigfleet_providers.Prelude.{
  pos, String-discrete, Bool, true, false, List, [], ◌∷◌, ◌++◌, some, get, insert, ◌≡◌, refl, err,
}
use bigfleet_providers.Prelude.Float.{unit}
use bigfleet_providers.Kit.Lifecycle.{Kind, can_start}
use bigfleet_providers.Kit.Fence.{is_zero}
use bigfleet_providers.Kit.Errors.{Error}
use bigfleet_providers.Kit.Machine.{Machine, host_empty}
use bigfleet_providers.Kit.Instance.{Instance, validate, to_machine, effective_state}
use bigfleet_providers.Kit.Store.{Snapshot, mem_store, mem_load, clone_snapshot}
use bigfleet_providers.Kit.Server.{
  check_fence, persist, touch, with_defaults, new_server, string_key,
}
use bigfleet_providers.Kit.Server.Durable.{mem_store-Durable}
use bigfleet_providers.Kit.Operation.{Operation, OpResult, kind_of}
use bigfleet_providers.Kit.Dispatch.{
  Task, accept, dispatch, fence_passed, found, idempotency, position, complete, settle,
}
use bigfleet_providers.Kit.Dispatch.Fencing.{IsStale}
use bigfleet_providers.Kit.Rpc.{call, create, fence_of}
use bigfleet_providers.Kit.Rpc.Cases.{machine_of, token_of, is_admissible}
use bigfleet_providers.Kit.Rpc.Fencing.{call-IsStale}
use bigfleet_providers.Kit.Startup.{effective, is_fresh, new, start, seed, seed_all}
use bigfleet_providers.Kit.System.{Process, request, refresh, next, after_call, after_reconcile}
use bigfleet_providers.Kit.System.Progress.{
  ProcessOwned, here, then_step, Reach-Owned, Reach-settles,
}
use bigfleet_providers.Kit.System.Rested.{Rested, Reach-Rested}
use bigfleet_providers.Kit.System.Stale.{Run-IsStale}
use bigfleet_providers.Tests.Fixture.{config, slot, plain_create, new_create}
use bigfleet_providers.Tests.Life.{first, booted, booted-Reach, called-Reach}

abbrev called : Process (List Instance) Snapshot
called = after_call config plain_create booted

Reach-Owned_example : ProcessOwned config mem_store-Durable called
Reach-Owned_example = Reach-Owned config mem_store-Durable called called-Reach

Reach-Rested_example : Rested config mem_store-Durable called
Reach-Rested_example = Reach-Rested config mem_store-Durable called called-Reach

-- The one task of a list.
abbrev only : List Task → Task
only (t ∷ []) = t
only _ = record {
  id = "";
  timeout = pos 0;
  op = Operation.delete;
  snapshot = to_machine slot;
  op_id = "";
}

is_one : List Task → Bool
is_one (t ∷ []) = true
is_one _ = false

only_lem : (ts : List Task) → is_one ts ≡ true → ts ≡ [] ++ only ts ∷ []
unfolding is_one
only_lem [] h = cc
only_lem (t ∷ []) h = refl
only_lem (t ∷ u ∷ ts) h = cc

called-runs : called.running ≡ [] ++ only called.running ∷ []
unfolding after_call call create fence_of dispatch check_fence is_zero fence_passed found
    idempotency position accept get insert can_start kind_of to_machine effective_state persist
    String-discrete host_empty first new start with_defaults seed seed_all validate mem_load
    clone_snapshot is_fresh unit new_server is_one touch
called-runs = only_lem called.running refl

abbrev timed_out : OpResult
timed_out = err (Error.timed_out Kind.create)

Reach-settles_example :
    (m : Machine) × (get (only called.running).id called.server.machines ≡ some m)
    × (get
          (only called.running).id
          (complete mem_store (only called.running) timed_out called.server).machines
        ≡ some (settle (kind_of (only called.running).op) timed_out m))
Reach-settles_example =
    Reach-settles config mem_store-Durable [] (only called.running) [] timed_out called called-Reach
      called-runs

-- The process after a call with a token, and its next reconciliation.
abbrev fenced : Process (List Instance) Snapshot
fenced = after_call config new_create booted

fenced-IsStale : IsStale (machine_of new_create) (token_of new_create) fenced.server
unfolding after_call is_admissible is_zero token_of fence_of String-discrete
fenced-IsStale = call-IsStale (effective config) new_create first refl refl

Run-IsStale_example :
    IsStale (machine_of new_create) (token_of new_create) (after_reconcile config fenced).server
Run-IsStale_example =
    Run-IsStale config mem_store-Durable (machine_of new_create) (token_of new_create) fenced
      (after_reconcile config fenced) (next booted-Reach (request new_create))
      (then_step refresh here) fenced-IsStale
