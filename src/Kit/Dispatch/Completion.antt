-- ===== src/Kit/Dispatch/Completion.antt =====
-- The completion of a transition: of a machine in the state of its kind it settles the record, and
-- anything else it leaves alone.
use bigfleet_providers.Prelude.{some, get, insert, if_pos, if_neg, ◌≡◌, ◌≢◌}
use bigfleet_providers.Kit.Lifecycle.{State-discrete, transitional}
use bigfleet_providers.Kit.Machine.{Machine}
use bigfleet_providers.Kit.Store.{Store}
use bigfleet_providers.Kit.Server.{Server, string_key, persist, touch}
use bigfleet_providers.Kit.Operation.{OpResult, kind_of}
use bigfleet_providers.Kit.Dispatch.{Task, settle, settled, complete}

module _ {S : Type 0} (st : Store S) (t : Task) (r : OpResult) (s : Server S) (m : Machine)
    (was : get t.id s.machines ≡ some m) where
  -- A completion that finds its machine in the state of its kind settles the record, touches it and
  -- persists.
  pub complete_current :
      m.state ≡ transitional (kind_of t.op)
      → complete st t r s
        ≡ persist st (
            touch t.id (record s { machines = insert t.id (settle (kind_of t.op) r m) s.machines }))
  unfolding complete settled
  complete_current e = rw (was, if_pos (State-discrete m.state (transitional (kind_of t.op))) e)

  -- A completion that finds its machine in another state changes nothing.
  pub complete_stale : m.state ≢ transitional (kind_of t.op) → complete st t r s ≡ s
  unfolding complete settled
  complete_stale e = rw (was, if_neg (State-discrete m.state (transitional (kind_of t.op))) e)
