-- ===== src/Tests/Contract.antt =====
-- The theorems on a backend that keeps the capacity type of a machine.
use bigfleet_providers.Prelude.{
  String, String-discrete, true, List, [], ◌∷◌, get, insert, insert-Every, Result, ok, ◌≡◌, refl,
  subst,
}
use bigfleet_providers.Prelude.Float.{unit}
use bigfleet_providers.Kit.Machine.{host_empty}
use bigfleet_providers.Kit.Errors.{Error}
use bigfleet_providers.Kit.Lifecycle.{CapacityType}
use bigfleet_providers.Kit.Instance.{Instance, validate, effective_state, to_machine}
use bigfleet_providers.Kit.Store.{Snapshot, mem_load, empty_snapshot}
use bigfleet_providers.Kit.Server.{Config, string_key, persist, with_defaults, new_server}
use bigfleet_providers.Kit.Startup.{new, start, seed, seed_all, is_fresh}
use bigfleet_providers.Kit.Server.Durable.{mem_store-Durable}
use bigfleet_providers.Kit.Sound.Spots.{Spotted, AsExpected, AllSpotted, to_machine-Spotted}
use bigfleet_providers.Kit.Reconcile.{reconcile}
use bigfleet_providers.Kit.Reconcile.Contract.{Contract, reconcile-Contract}
use bigfleet_providers.Kit.System.{Reach, boot, request, next, after_call}
use bigfleet_providers.Kit.System.Spots.{Constant}
use bigfleet_providers.Kit.System.Contract.{InOrder, Reach-InOrder}
use bigfleet_providers.Tests.Fixture.{
  config, substrate, slot, slot-InShape, server, server-Fits, plain_create,
}
use bigfleet_providers.Tests.Life.{first, loaded, is-fresh, first-started}

-- A backend that reports the same slot in every state.
abbrev steady : Config (List Instance) Snapshot
steady = record config { backend = record substrate { describe = λ b. ok (slot ∷ []) } }

abbrev capacity : String → CapacityType
capacity id = slot.capacity_type

steady-Constant : Constant steady capacity
steady-Constant b is e = subst (AsExpected capacity) (same is e) (refl, tt)
  where
    same :
        (is : List Instance)
        → Path (Result Error (List Instance)) (ok (slot ∷ [])) (ok is)
        → (slot ∷ []) ≡ is
    same is q = cc

steady-started : new steady [] [] empty_snapshot ≡ ok first
unfolding new start seed seed_all validate String-discrete with_defaults unit effective_state
    host_empty get new_server is_fresh mem_load
steady-started = first-started

steady-Reach :
    Reach steady (record { server = first; substrate = []; running = []; abandoned = [] })
steady-Reach = boot [] [] empty_snapshot empty_snapshot first loaded is-fresh steady-started

Reach-InOrder_example : InOrder steady mem_store-Durable capacity steady-Constant (
    after_call steady plain_create
      (record { server = first; substrate = []; running = []; abandoned = [] }))
Reach-InOrder_example =
    Reach-InOrder steady mem_store-Durable capacity steady-Constant
      (after_call steady plain_create
        (record { server = first; substrate = []; running = []; abandoned = [] }))
      (next steady-Reach (request plain_create))

nothing-Spotted : AllSpotted capacity []
unfolding get
nothing-Spotted k v h = cc

slot-Spotted : Spotted capacity "m1" (to_machine slot)
slot-Spotted = to_machine-Spotted capacity true slot slot-InShape refl

server-Spotted : AllSpotted capacity server.machines
unfolding persist insert
server-Spotted =
    insert-Every (Spotted capacity) "m1" (to_machine slot) [] nothing-Spotted slot-Spotted

server-Contract : Contract steady capacity server
server-Contract = record { fits = server-Fits; spotted = server-Spotted }

reconcile-Contract_example : Contract steady capacity (reconcile steady [] server).1
reconcile-Contract_example =
    reconcile-Contract steady capacity [] server (steady-Constant []) server-Contract
