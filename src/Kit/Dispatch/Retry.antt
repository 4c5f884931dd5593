-- ===== src/Kit/Dispatch/Retry.antt =====
-- A call without a token that is made again while its transition runs is answered as the first.
use bigfleet_providers.Prelude.{
  String, ℤ, inc, Bool, true, false, Option, none, some, get, get-insert_self, ◌≡◌, ◌≢◌, refl, ◌∙◌,
  inl, inr, Bool-cases, if_pos,
}
use bigfleet_providers.Kit.Fence.{Fence, is_zero, fence_key}
use bigfleet_providers.Kit.Lifecycle.{State-discrete, transitional, can_start}
use bigfleet_providers.Kit.Machine.{Machine}
use bigfleet_providers.Kit.Store.{Store}
use bigfleet_providers.Kit.Server.{
  Server, string_key, op_key, check_fence, persist, persist_if, touch, mint_op, op_id_text,
}
use bigfleet_providers.Kit.Operation.{Operation, kind_of, pre_effect}
use bigfleet_providers.Kit.Dispatch.{
  Outcome, is_underway, op_key_of, entered, dispatch, found, fence_passed, idempotency, position,
  accept, refuse, retry,
}

pub entered-state :
    (op : Operation) (m : Machine) → (entered op m).state ≡ transitional (kind_of op)
unfolding entered pre_effect kind_of
entered-state Operation.create m = refl
entered-state (Operation.configure c b md) m = refl
entered-state (Operation.drain g) m = refl
entered-state Operation.delete m = refl

pub entered-underway :
    (op : Operation) (m : Machine) → is_underway (kind_of op) (entered op m).state ≡ true
entered-underway op m =
    rw
      (if_pos (State-discrete (entered op m).state (transitional (kind_of op)))
        (entered-state op m))
      refl

module _ {S : Type 0} (st : Store S) (prefix id : String) (timeout : ℤ) (op : Operation) where
  -- The same answer, with nothing changed and nothing started.
  abbrev pub answered_again : Outcome S → Outcome S
  answered_again o = record { server = o.server; reply = o.reply; task = none }

  accept_again :
      (m : Machine) (s : Server S)
      → found st
          (get id (accept st prefix id timeout op m s).server.machines)
          prefix
          id
          timeout
          op
          false
          (accept st prefix id timeout op m s).server
        ≡ answered_again (accept st prefix id timeout op m s)
  unfolding accept persist touch mint_op found idempotency retry persist_if
  accept_again m s =
      rw
        (
          get-insert_self id (entered op m) s.machines,
          get-insert_self (op_key_of id (kind_of op)) (op_id_text prefix (inc s.next_op)) s.ops,
          entered-underway op m,
        )
        refl

  -- A call that starts a transition accepts it for the record that it finds.
  position-accepts :
      (b : Bool) (m : Machine) (s : Server S)
      → (position st prefix id timeout op b m s).task ≢ none
      → position st prefix id timeout op b m s ≡ accept st prefix id timeout op m s
  unfolding position refuse
  position-accepts b m s h = elim (Bool-cases (can_start m.state (kind_of op))) [
    | inl y ↦ rw y refl
    | inr n ↦ absurd (h (rw n refl))
  ]

  idempotency-accepts :
      (o : Option String) (b : Bool) (m : Machine) (s : Server S)
      → (idempotency st o prefix id timeout op b m s).task ≢ none
      → idempotency st o prefix id timeout op b m s ≡ accept st prefix id timeout op m s
  unfolding idempotency retry
  idempotency-accepts none b m s h = position-accepts b m s h
  idempotency-accepts (some op_id) b m s h = elim (Bool-cases (is_underway (kind_of op) m.state)) [
    | inl y ↦ absurd (h (rw y refl))
    | inr n ↦ rw n (position-accepts b m s (λ e. h (rw n e)))
  ]

  pub found-accepts :
      (o : Option Machine) (b : Bool) (s : Server S)
      → (found st o prefix id timeout op b s).task ≢ none
      → (m : Machine) × (found st o prefix id timeout op b s ≡ accept st prefix id timeout op m s)
  unfolding found refuse
  found-accepts none b s h = absurd (h refl)
  found-accepts (some m) b s h = (m, idempotency-accepts _ b m s h)

  found_again :
      (s : Server S) (o : Outcome S)
      → (m : Machine) × (o ≡ accept st prefix id timeout op m s)
      → found st (get id o.server.machines) prefix id timeout op false o.server ≡ answered_again o
  found_again s o (m, e) = rw e (accept_again m s)

  unfenced :
      (f : Fence) (s : Server S)
      → is_zero f ≡ true
      → dispatch st prefix id f timeout op s
        ≡ found st (get id s.machines) prefix id timeout op false s
  unfolding dispatch fence_passed check_fence
  unfenced f s z = rw z refl

  pub dispatch_again :
      (f : Fence) (s : Server S)
      → is_zero f ≡ true
      → (dispatch st prefix id f timeout op s).task ≢ none
      → dispatch st prefix id f timeout op (dispatch st prefix id f timeout op s).server
        ≡ answered_again (dispatch st prefix id f timeout op s)
  dispatch_again f s z h =
      unfenced f _ z
      ∙ found_again s (dispatch st prefix id f timeout op s) (
          rw (unfenced f s z)
            (found-accepts (get id s.machines) false s (λ e. h (unfenced_task e))))
    where
      unfenced_task :
          (found st (get id s.machines) prefix id timeout op false s).task ≡ none
          → (dispatch st prefix id f timeout op s).task ≡ none
      unfenced_task e = rw (unfenced f s z) e
