-- ===== src/Kit/Rpc/Fencing.antt =====
-- Fencing and idempotency of the calls.
use bigfleet_providers.Prelude.{true, false, none, err, ◌≡◌, ◌≢◌, ◌∙◌}
use bigfleet_providers.Kit.Fence.{is_zero}
use bigfleet_providers.Kit.Errors.{Error, Code, map_err}
use bigfleet_providers.Kit.Messages.{Request}
use bigfleet_providers.Kit.Server.{Config, Server}
use bigfleet_providers.Kit.Dispatch.Fencing.{IsStale, dispatch_stale}
use bigfleet_providers.Kit.Dispatch.Replay.{dispatch-IsStale}
use bigfleet_providers.Kit.Dispatch.Retry.{dispatch_again}
use bigfleet_providers.Kit.Dispatch.Repeat.{Repeated, dispatch-Repeated}
use bigfleet_providers.Kit.Lifecycle.{Kind}
use bigfleet_providers.Kit.Operation.{kind_of}
use bigfleet_providers.Prelude.{ℤ, refl, ap, sym}
use bigfleet_providers.Kit.Rpc.{call}
use bigfleet_providers.Kit.Rpc.Cases.{
  machine_of, token_of, operation_of, timeout_of, is_admissible, call-dispatch,
}

module _ {B S : Type 0} (cfg : Config B S) (req : Request) (s : Server S)
    (admissible : is_admissible cfg req ≡ true) where
  -- A call with a machine id (and no Delete that the backend cannot do) whose token is set and is
  -- not newer than the mark of its shard for its machine changes nothing, writes nothing, starts
  -- nothing, and answers FAILED_PRECONDITION.
  pub call_stale :
      (h : IsStale (machine_of req) (token_of req) s)
      → call cfg req s ≡ record {
        server = s;
        reply = err (record {
          code = Code.failed_precondition;
          cause = Error.fenced (token_of req) (machine_of req) h.mark;
        });
        task = none;
      }
  unfolding map_err
  call_stale h =
      call-dispatch cfg req s admissible
      ∙ dispatch_stale cfg.store cfg.opts.operation_id_prefix (machine_of req) (token_of req)
          (timeout_of cfg req) (operation_of req) s h

  -- After a call with a machine id (and no Delete that the backend cannot do) and a set token,
  -- whatever it was answered, the token is stale for its machine.
  pub call-IsStale :
      is_zero (token_of req) ≡ false
      → IsStale (machine_of req) (token_of req) (call cfg req s).server
  call-IsStale z = rw (call-dispatch cfg req s admissible) (
      dispatch-IsStale cfg.store cfg.opts.operation_id_prefix (machine_of req) (timeout_of cfg req)
        (operation_of req) (token_of req) s z)

  -- A call with a machine id and without a token that starts a transition, made again before
  -- anything else happens, gets the same answer, with the same operation id; it changes nothing
  -- and starts nothing.
  pub call_again :
      is_zero (token_of req) ≡ true
      → (call cfg req s).task ≢ none
      → call cfg req (call cfg req s).server
        ≡ record { server = (call cfg req s).server; reply = (call cfg req s).reply; task = none }
  call_again z h =
      call-dispatch cfg req (call cfg req s).server admissible
      ∙ rw (call-dispatch cfg req s admissible) (
          dispatch_again cfg.store cfg.opts.operation_id_prefix (machine_of req)
            (timeout_of cfg req) (operation_of req) (token_of req) s z
            (λ e. h (rw (call-dispatch cfg req s admissible) e)))

module _ {B S : Type 0} (cfg : Config B S) where
  timeout_by : Kind → ℤ
  timeout_by Kind.create = cfg.opts.timeouts.create
  timeout_by Kind.configure = cfg.opts.timeouts.configure
  timeout_by Kind.drain = cfg.opts.timeouts.drain
  timeout_by Kind.delete = cfg.opts.timeouts.delete

  timeout_by_kind : (req : Request) → timeout_of cfg req ≡ timeout_by (kind_of (operation_of req))
  unfolding timeout_by timeout_of kind_of operation_of
  timeout_by_kind (Request.create r) = refl
  timeout_by_kind (Request.configure r) = refl
  timeout_by_kind (Request.drain r) = refl
  timeout_by_kind (Request.delete r) = refl

  same_timeout :
      (req again : Request)
      → operation_of again ≡ operation_of req
      → timeout_of cfg again ≡ timeout_of cfg req
  same_timeout req again e =
      timeout_by_kind again ∙ ap (λ op. timeout_by (kind_of op)) e ∙ sym (timeout_by_kind req)

  -- A call that starts a transition, with any token, made again before anything else happens, with
  -- a token that is not stale (or none) for the same machine and operation, gets the same answer
  -- with the same operation id; it starts nothing and leaves the machines, the operations and the
  -- counter of operation ids as they were. Both calls have a machine id, and are no Delete that the
  -- backend cannot do.
  pub call-Repeated :
      (req again : Request) (s : Server S)
      → is_admissible cfg req ≡ true
      → is_admissible cfg again ≡ true
      → machine_of again ≡ machine_of req
      → operation_of again ≡ operation_of req
      → (call cfg req s).task ≢ none
      → (IsStale (machine_of req) (token_of again) (call cfg req s).server → ⊥)
      → Repeated (call cfg req s) (call cfg again (call cfg req s).server)
  call-Repeated req again s a b machine op h n =
      rw
        (
          call-dispatch cfg again (call cfg req s).server b,
          machine,
          op,
          same_timeout req again op,
          call-dispatch cfg req s a,
        )
        (dispatch-Repeated cfg.store cfg.opts.operation_id_prefix (machine_of req)
          (timeout_of cfg req) (operation_of req) (token_of req) (token_of again) s
          (λ e. h (rw (call-dispatch cfg req s a) e)) (λ q. n (rw (call-dispatch cfg req s a) q)))
