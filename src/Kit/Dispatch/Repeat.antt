-- ===== src/Kit/Dispatch/Repeat.antt =====
-- A call that is made again while its transition runs, with a token that is not stale.
use bigfleet_providers.Prelude.{
  String, ℤ, inc, Bool, true, false, Option, none, some, get, get-insert_self, ◌≡◌, ◌≢◌, refl,
}
use bigfleet_providers.Prelude.{List, Result, ok, err, not, if◌then◌else◌}
use bigfleet_providers.Kit.Errors.{Error}
use bigfleet_providers.Kit.Wire.{machine_to_proto}
use bigfleet_providers.Kit.Dispatch.Cases.{OnlyMarks, fence_key_of, check_fence-OnlyMarks}
use bigfleet_providers.Kit.Dispatch.Fencing.{IsStale}
use bigfleet_providers.Kit.Fence.{Fence, FenceKey, FenceMark, is_zero, newer, fence_key}
use bigfleet_providers.Kit.Machine.{Machine}
use bigfleet_providers.Kit.Store.{Store}
use bigfleet_providers.Kit.Server.{
  Server, string_key, op_key, check_fence, check_mark, persist, persist_if, touch, mint_op,
  op_id_text,
}
use bigfleet_providers.Kit.Operation.{Operation, kind_of}
use bigfleet_providers.Kit.Dispatch.{
  Outcome, op_key_of, entered, dispatch, found, fence_passed, idempotency, accept, retry,
}
use bigfleet_providers.Kit.Dispatch.Retry.{found-accepts, entered-underway}

-- The answer of an accepted call given again: the same reply, no new transition, and no change
-- but to the marks and the store.
pub record Repeated {S : Type 0} (o again : Outcome S) : Type 0 where
  pub reply : again.reply ≡ o.reply
  pub task : again.task ≡ none
  pub machines : again.server.machines ≡ o.server.machines
  pub ops : again.server.ops ≡ o.server.ops
  pub next_op : again.server.next_op ≡ o.server.next_op

module _ {S : Type 0} (st : Store S) (prefix id : String) (timeout : ℤ) (op : Operation) where
  fence_passed-accepts :
      (r : Result Error (Bool × Server S)) (s : Server S)
      → (fence_passed st r prefix id timeout op s).task ≢ none
      → (m : Machine) × (s' : Server S) × (fence_passed st r prefix id timeout op s
          ≡ accept st prefix id timeout op m s')
  unfolding fence_passed
  fence_passed-accepts (err e) s h = absurd (h refl)
  fence_passed-accepts (ok (b, s')) s h =
      let (m, e) = found-accepts st prefix id timeout op (get id s'.machines) b s' h in (m, s', e)

  retry-Repeated :
      (o : Outcome S) (op_id : String) (b : Bool) (m : Machine) (s : Server S)
      → ok (record { operation_id = op_id; machine = machine_to_proto m }) ≡ o.reply
      → s.machines ≡ o.server.machines
      → s.ops ≡ o.server.ops
      → s.next_op ≡ o.server.next_op
      → Repeated o (retry st op_id b m s)
  unfolding retry persist_if persist
  retry-Repeated o op_id true m s r e f g = record {
    reply = r;
    task = refl;
    machines = e;
    ops = f;
    next_op = g;
  }
  retry-Repeated o op_id false m s r e f g = record {
    reply = r;
    task = refl;
    machines = e;
    ops = f;
    next_op = g;
  }

  found-Repeated :
      (m : Machine) (s : Server S) (b : Bool) (fences : List (FenceKey × FenceMark))
      → Repeated (accept st prefix id timeout op m s) (
          found st
            (get id (accept st prefix id timeout op m s).server.machines)
            prefix
            id
            timeout
            op
            b
            (record (accept st prefix id timeout op m s).server { fences = fences }))
  unfolding accept persist touch mint_op found idempotency
  found-Repeated m s b fences =
      rw
        (
          get-insert_self id (entered op m) s.machines,
          get-insert_self (op_key_of id (kind_of op)) (op_id_text prefix (inc s.next_op)) s.ops,
          entered-underway op m,
        )
        (retry-Repeated (accept st prefix id timeout op m s) (op_id_text prefix (inc s.next_op)) b
          (entered op m) _ refl refl refl refl)

  -- What the fence makes of a call on a server that has accepted one.
  passed-Repeated :
      (m : Machine) (s : Server S) (f : Fence) (r : Result Error (Bool × Server S))
      → ((e : Error) → r ≡ err e → ⊥)
      → OnlyMarks id f (accept st prefix id timeout op m s).server r
      → Repeated
          (accept st prefix id timeout op m s)
          (fence_passed st r prefix id timeout op (accept st prefix id timeout op m s).server)
  unfolding fence_passed
  passed-Repeated m s f (err e) n h = absurd (n e refl)
  passed-Repeated m s f (ok (b, s')) n (fences, step, e) = rw e (found-Repeated m s b fences)

  -- An `if` that comes out as an error took the branch that is one.
  else_error :
      {A : Type 0} (b : Bool) (a : A) (r : Result Error A) (e : Error)
      → (if b then ok a else r) ≡ err e
      → (b ≡ false) × (r ≡ err e)
  else_error true a r e h = cc
  else_error false a r e h = (refl, h)

  then_error :
      {A : Type 0} (b : Bool) (a : A) (x e : Error)
      → (if not b then err x else ok a) ≡ err e
      → b ≡ false
  then_error true a x e h = cc
  then_error false a x e h = refl

  check_mark_error :
      (o : Option FenceMark) (f : Fence) (s : Server S) (e : Error)
      → is_zero f ≡ false
      → get (fence_key_of id f) s.fences ≡ o
      → check_mark o id f s ≡ err e
      → IsStale id f s
  unfolding check_mark
  check_mark_error none f s e z k h = cc
  check_mark_error (some mark) f s e z k h = record {
    set = z;
    mark = mark;
    known = k;
    old = then_error (newer mark f) _ _ e h;
  }

  check_fence_error :
      (f : Fence) (s : Server S) (e : Error) → check_fence id f s ≡ err e → IsStale id f s
  unfolding check_fence
  check_fence_error f s e h =
      let (z, k) = else_error (is_zero f) _ _ e h in check_mark_error _ f s e z refl k

  -- A call that starts a transition, made again before anything else happens, with a token that is
  -- not stale, is answered as the first.
  pub dispatch-Repeated :
      (f g : Fence) (s : Server S)
      → (dispatch st prefix id f timeout op s).task ≢ none
      → (IsStale id g (dispatch st prefix id f timeout op s).server → ⊥)
      → Repeated
          (dispatch st prefix id f timeout op s)
          (dispatch st prefix id g timeout op (dispatch st prefix id f timeout op s).server)
  unfolding dispatch
  dispatch-Repeated f g s h n =
      let (m, s', e) = fence_passed-accepts (check_fence id f s) s h in
      rw e (
        passed-Repeated m s' g _ (λ x q. n (rw e (check_fence_error g _ x q)))
          (check_fence-OnlyMarks id g _))
