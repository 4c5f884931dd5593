-- ===== src/Kit/Dispatch/Fencing.antt =====
-- What `checkFenceLocked` and `dispatch` do with a fencing token.
use bigfleet_providers.Prelude.{String, ℤ, false, none, some, get, err, ◌≡◌}
use bigfleet_providers.Kit.Fence.{Fence, FenceMark, is_zero, newer, fence_key}
use bigfleet_providers.Kit.Errors.{Error, map_err}
use bigfleet_providers.Kit.Store.{Store}
use bigfleet_providers.Kit.Server.{Server, check_fence}
use bigfleet_providers.Kit.Operation.{Operation}
use bigfleet_providers.Kit.Dispatch.{dispatch}
use bigfleet_providers.Kit.Dispatch.Cases.{fence_key_of}

-- A set token that is not strictly newer than the mark of its shard for the machine.
pub record IsStale {S : Type 0} (id : String) (f : Fence) (s : Server S) : Type 0 where
  pub set : is_zero f ≡ false
  pub mark : FenceMark
  pub known : get (fence_key_of id f) s.fences ≡ some mark
  pub old : newer mark f ≡ false

module _ {S : Type 0} (st : Store S) (prefix id : String) (f : Fence) (timeout : ℤ) (op : Operation)
    (s : Server S) where
  pub dispatch_stale :
      (h : IsStale id f s)
      → dispatch st prefix id f timeout op s
        ≡ record { server = s; reply = err (map_err (Error.fenced f id h.mark)); task = none }
  unfolding dispatch check_fence
  dispatch_stale h = rw (h.set, h.known, h.old)
