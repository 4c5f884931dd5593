-- ===== src/Kit/Dispatch/Replay.antt =====
-- A token is good for one call: whatever `dispatch` did with it, it is stale then.
use bigfleet_providers.Prelude.{
  String, ℤ, Bool, true, false, Option, none, some, get, get-insert_self, ok, ◌≡◌, refl, arith, inl,
  inr, Bool-cases,
}
use bigfleet_providers.Kit.Fence.{Fence, FenceMark, fence_key, is_zero, newer}
use bigfleet_providers.Kit.Machine.{Machine}
use bigfleet_providers.Kit.Store.{Store}
use bigfleet_providers.Kit.Server.{Server, string_key, check_fence, check_mark, advance}
use bigfleet_providers.Kit.Operation.{Operation}
use bigfleet_providers.Kit.Dispatch.{dispatch, found, fence_passed}
use bigfleet_providers.Kit.Dispatch.Cases.{fence_key_of, mark_of, found-Cases}
use bigfleet_providers.Kit.Dispatch.Fencing.{IsStale}

newer_irrefl : (f : Fence) → newer (mark_of f) f ≡ false
unfolding newer
newer_irrefl f = ground arith

module _ {S : Type 0} (st : Store S) (prefix id : String) (timeout : ℤ) (op : Operation) where
  found-fences :
      (o : Option Machine) (b : Bool) (s : Server S)
      → get id s.machines ≡ o
      → (found st o prefix id timeout op b s).server.fences ≡ s.fences
  found-fences o b s h = elim (found-Cases st prefix id timeout op o b s h) [
    | inl k ↦ k.fences
    | inr (m, a) ↦ a.fences
  ]

  -- After the mark has advanced to the token.
  advanced-IsStale :
      (f : Fence) (s : Server S)
      → is_zero f ≡ false
      → IsStale id f
          (fence_passed st
            (ok (true, advance (fence_key_of id f) f s))
            prefix
            id
            timeout
            op
            s).server
  unfolding fence_passed advance
  advanced-IsStale f s z = record {
    set = z;
    mark = mark_of f;
    known =
        rw (found-fences _ true (advance (fence_key_of id f) f s) refl)
          (get-insert_self (fence_key_of id f) (mark_of f) s.fences);
    old = newer_irrefl f;
  }

  mark-IsStale :
      (o : Option FenceMark) (f : Fence) (s : Server S)
      → get (fence_key_of id f) s.fences ≡ o
      → is_zero f ≡ false
      → IsStale id f (fence_passed st (check_mark o id f s) prefix id timeout op s).server
  unfolding check_mark fence_passed
  mark-IsStale none f s h z = advanced-IsStale f s z
  mark-IsStale (some mark) f s h z = elim (Bool-cases (newer mark f)) [
    | inl y ↦ rw y (advanced-IsStale f s z)
    | inr n ↦ rw n (record { set = z; mark = mark; known = h; old = n })
  ]

  pub dispatch-IsStale :
      (f : Fence) (s : Server S)
      → is_zero f ≡ false
      → IsStale id f (dispatch st prefix id f timeout op s).server
  unfolding dispatch check_fence
  dispatch-IsStale f s z = rw z (mark-IsStale _ f s refl z)
