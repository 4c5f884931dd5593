-- ===== src/Kit/Rpc/Cases.antt =====
-- A call is turned away with its arguments, or is a `dispatch`.
use bigfleet_providers.Prelude.{
  String, ℤ, Bool, true, false, not, ◌||◌, none, err, ◌≡◌, refl, arith, ◌⊎◌, inl, inr,
  if◌then◌else◌,
}
use bigfleet_providers.Kit.Fence.{Fence, is_empty}
use bigfleet_providers.Kit.Errors.{Code, Status}
use bigfleet_providers.Kit.Machine.{clone_map}
use bigfleet_providers.Kit.Messages.{Request}
use bigfleet_providers.Kit.Server.{Config, Server}
use bigfleet_providers.Kit.Operation.{Operation}
use bigfleet_providers.Kit.Dispatch.{Outcome, dispatch}
use bigfleet_providers.Kit.Rpc.{fence_of, can_delete, call, reject}

-- The machine, the token and the operation of a request.
unfoldable pub machine_of : Request → String
machine_of (Request.create r) = r.machine_id
machine_of (Request.configure r) = r.machine_id
machine_of (Request.drain r) = r.machine_id
machine_of (Request.delete r) = r.machine_id

unfoldable pub token_of : Request → Fence
unfolding fence_of
token_of (Request.create r) = fence_of r.shard_id r.shard_epoch r.sequence_number
token_of (Request.configure r) = fence_of r.shard_id r.shard_epoch r.sequence_number
token_of (Request.drain r) = fence_of r.shard_id r.shard_epoch r.sequence_number
token_of (Request.delete r) = fence_of r.shard_id r.shard_epoch r.sequence_number

unfoldable pub operation_of : Request → Operation
operation_of (Request.create r) = Operation.create
operation_of (Request.configure r) =
    Operation.configure r.cluster_id r.bootstrap_blob (clone_map r.shard_metadata)
operation_of (Request.drain r) = Operation.drain r.grace_period_seconds
operation_of (Request.delete r) = Operation.delete

-- Any other call changes nothing, starts nothing, and has one of two codes.
pub record TurnedAway {S : Type 0} (s : Server S) (o : Outcome S) : Type 0 where
  pub server : o.server ≡ s
  pub task : o.task ≡ none
  pub status : Status
  pub reply : o.reply ≡ err status
  pub code : (status.code ≡ Code.invalid_argument) ⊎ (status.code ≡ Code.unimplemented)

module _ {S : Type 0} (s : Server S) where
  reject-TurnedAway :
      (code : Code) (text : String)
      → (code ≡ Code.invalid_argument) ⊎ (code ≡ Code.unimplemented)
      → TurnedAway s (reject code text s)
  unfolding reject
  reject-TurnedAway code text h = record {
    server = refl;
    task = refl;
    status = _;
    reply = refl;
    code = h;
  }

  -- A guard that holds turns the call away.
  guarded :
      (b : Bool) (o r : Outcome S)
      → not b ≡ false
      → TurnedAway s r
      → TurnedAway s (if b then r else o)
  guarded true o r h t = t
  guarded false o r h t = cc

  -- A guard that fails does not.
  unguarded : (b : Bool) (o r : Outcome S) → not b ≡ true → (if b then r else o) ≡ o
  unguarded true o r h = cc
  unguarded false o r h = refl

  two_guards :
      (a b : Bool) (o r q : Outcome S)
      → not (a || not b) ≡ true
      → (if a then r else if not b then q else o) ≡ o
  two_guards a b o r q h = ground arith

  two_guarded :
      (a b : Bool) (o r q : Outcome S)
      → not (a || not b) ≡ false
      → TurnedAway s r
      → TurnedAway s q
      → TurnedAway s (if a then r else if not b then q else o)
  two_guarded true b o r q h t u = t
  two_guarded false true o r q h t u = cc
  two_guarded false false o r q h t u = u

module _ {B S : Type 0} (cfg : Config B S) where
  unfoldable pub timeout_of : Request → ℤ
  timeout_of (Request.create r) = cfg.opts.timeouts.create
  timeout_of (Request.configure r) = cfg.opts.timeouts.configure
  timeout_of (Request.drain r) = cfg.opts.timeouts.drain
  timeout_of (Request.delete r) = cfg.opts.timeouts.delete

  -- The request has a machine id, and is no Delete that the backend cannot do.
  unfoldable pub is_admissible : Request → Bool
  is_admissible (Request.create r) = not (is_empty r.machine_id)
  is_admissible (Request.configure r) = not (is_empty r.machine_id)
  is_admissible (Request.drain r) = not (is_empty r.machine_id)
  is_admissible (Request.delete r) = not (is_empty r.machine_id || not (can_delete cfg))

  -- An admissible call is a dispatch.
  pub call-dispatch :
      (req : Request) (s : Server S)
      → is_admissible req ≡ true
      → call cfg req s
        ≡ dispatch cfg.store cfg.opts.operation_id_prefix
            (machine_of req)
            (token_of req)
            (timeout_of req)
            (operation_of req)
            s
  unfolding call is_admissible machine_of token_of timeout_of operation_of fence_of
  call-dispatch (Request.create r) s h = unguarded s (is_empty r.machine_id) _ _ h
  call-dispatch (Request.configure r) s h = unguarded s (is_empty r.machine_id) _ _ h
  call-dispatch (Request.drain r) s h = unguarded s (is_empty r.machine_id) _ _ h
  call-dispatch (Request.delete r) s h =
      two_guards s (is_empty r.machine_id) (can_delete cfg) _ _ _ h

  pub call-TurnedAway :
      (req : Request) (s : Server S) → is_admissible req ≡ false → TurnedAway s (call cfg req s)
  unfolding call is_admissible
  call-TurnedAway (Request.create r) s h =
      guarded s (is_empty r.machine_id) _ _ h (reject-TurnedAway s _ _ (inl refl))
  call-TurnedAway (Request.configure r) s h =
      guarded s (is_empty r.machine_id) _ _ h (reject-TurnedAway s _ _ (inl refl))
  call-TurnedAway (Request.drain r) s h =
      guarded s (is_empty r.machine_id) _ _ h (reject-TurnedAway s _ _ (inl refl))
  call-TurnedAway (Request.delete r) s h =
      two_guarded s (is_empty r.machine_id) (can_delete cfg) _ _ _ h
        (reject-TurnedAway s _ _ (inl refl)) (reject-TurnedAway s _ _ (inr refl))
