-- ===== src/Kit/Dispatch/Durable.antt =====
-- `dispatch` and the completion of a transition write through what they change.
use bigfleet_providers.Prelude.{
  String, ℤ, Bool, true, false, Option, none, some, ◌≡◌, refl, inl, inr, Bool-cases,
}
use bigfleet_providers.Kit.Lifecycle.{can_start, transitional}
use bigfleet_providers.Kit.Fence.{Fence, FenceMark, fence_key, is_zero, newer}
use bigfleet_providers.Kit.Machine.{Machine}
use bigfleet_providers.Kit.Store.{Store}
use bigfleet_providers.Kit.Server.{Server, string_key, op_key, check_fence, check_mark, persist_if}
use bigfleet_providers.Kit.Server.Durable.{Durable, Synced, persist-Synced}
use bigfleet_providers.Kit.Operation.{Operation, OpResult, kind_of}
use bigfleet_providers.Kit.Dispatch.{
  Task, state_is, is_underway, refuse, retry, accept, position, idempotency, found, fence_passed,
  dispatch, settled, complete,
}

module _ {S : Type 0} (st : Store S) (durable : Durable st) where
  pub persist_if-Synced :
      (b : Bool) (s : Server S) → (b ≡ false → Synced st s) → Synced st (persist_if st b s)
  unfolding persist_if
  persist_if-Synced true s h = persist-Synced st s durable
  persist_if-Synced false s h = h refl

  module _ (prefix id : String) (timeout : ℤ) (op : Operation) where
    position-Synced :
        (b : Bool) (m : Machine) (s : Server S)
        → (b ≡ false → Synced st s)
        → Synced st (position st prefix id timeout op b m s).server
    unfolding position accept refuse
    position-Synced b m s h = elim (Bool-cases (can_start m.state (kind_of op))) [
      | inl y ↦ rw y (persist-Synced st _ durable)
      | inr n ↦ rw n (persist_if-Synced b s h)
    ]

    idempotency-Synced :
        (o : Option String) (b : Bool) (m : Machine) (s : Server S)
        → (b ≡ false → Synced st s)
        → Synced st (idempotency st o prefix id timeout op b m s).server
    unfolding idempotency retry
    idempotency-Synced none b m s h = position-Synced b m s h
    idempotency-Synced (some op_id) b m s h = elim (Bool-cases (is_underway (kind_of op) m.state)) [
      | inl y ↦ rw y (persist_if-Synced b s h)
      | inr n ↦ rw n (position-Synced b m s h)
    ]

    found-Synced :
        (o : Option Machine) (b : Bool) (s : Server S)
        → (b ≡ false → Synced st s)
        → Synced st (found st o prefix id timeout op b s).server
    unfolding found refuse
    found-Synced none b s h = persist_if-Synced b s h
    found-Synced (some m) b s h = idempotency-Synced _ b m s h

    mark-Synced :
        (o : Option FenceMark) (f : Fence) (s : Server S)
        → Synced st s
        → Synced st (fence_passed st (check_mark o id f s) prefix id timeout op s).server
    unfolding check_mark fence_passed
    mark-Synced none f s h = found-Synced _ true _ (λ e. cc)
    mark-Synced (some mark) f s h = elim (Bool-cases (newer mark f)) [
      | inl y ↦ rw y (found-Synced _ true _ (λ e. cc))
      | inr n ↦ rw n h
    ]

    -- A call leaves the store with the state of the server, whatever it answers.
    pub dispatch-Synced :
        (f : Fence) (s : Server S)
        → Synced st s
        → Synced st (dispatch st prefix id f timeout op s).server
    unfolding dispatch check_fence fence_passed
    dispatch-Synced f s h = elim (Bool-cases (is_zero f)) [
      | inl y ↦ rw y (found-Synced _ false s (λ e. h))
      | inr n ↦ rw n (mark-Synced _ f s h)
    ]

  settled-Synced :
      (o : Option Machine) (t : Task) (r : OpResult) (s : Server S)
      → Synced st s
      → Synced st (settled st o t r s)
  unfolding settled
  settled-Synced none t r s h = h
  settled-Synced (some m) t r s h =
      elim (Bool-cases (state_is m.state (transitional (kind_of t.op)))) [
        | inl y ↦ rw y (persist-Synced st _ durable)
        | inr n ↦ rw n h
      ]

  -- So does the completion of a transition.
  pub complete-Synced :
      (t : Task) (r : OpResult) (s : Server S) → Synced st s → Synced st (complete st t r s)
  unfolding complete
  complete-Synced t r s h = settled-Synced _ t r s h
