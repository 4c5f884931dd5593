-- ===== src/Kit/Rpc/Keeps.antt =====
-- A call keeps the inventory sound and the store in step.
use bigfleet_providers.Prelude.{
  String, Bool, List, Distinct, insert-Distinct, ◌⊎◌, inl, inr, Bool-cases,
}
use bigfleet_providers.Kit.Fence.{Fence, FenceKey, FenceMark, fence_key}
use bigfleet_providers.Kit.Machine.{Machine}
use bigfleet_providers.Kit.Messages.{Request}
use bigfleet_providers.Kit.Server.{Config, Server, op_key, string_key}
use bigfleet_providers.Kit.Server.Durable.{Durable, Synced}
use bigfleet_providers.Kit.Dispatch.{Outcome}
use bigfleet_providers.Kit.Dispatch.Cases.{
  FenceStep, Kept, Accepted, fence_key_of, mark_of, dispatch-Dispatched,
}
use bigfleet_providers.Kit.Dispatch.Durable.{dispatch-Synced}
use bigfleet_providers.Kit.Sound.Inventory.{Fits, Fits-same, Fits-insert}
use bigfleet_providers.Kit.Sound.Transitions.{entered-Sound}
use bigfleet_providers.Kit.Rpc.{call}
use bigfleet_providers.Kit.Rpc.Cases.{
  machine_of, token_of, operation_of, timeout_of, is_admissible, call-dispatch, TurnedAway,
  call-TurnedAway,
}

FenceStep-Distinct :
    {S : Type 0} (id : String) (f : Fence) (s : Server S) (fences : List (FenceKey × FenceMark))
    → FenceStep id f s fences
    → Distinct s.fences
    → Distinct fences
FenceStep-Distinct id f s fences (inl e) d = rw e d
FenceStep-Distinct id f s fences (inr (e, n)) d =
    rw e (insert-Distinct (fence_key_of id f) (mark_of f) s.fences d)

module _ {B S : Type 0} (cfg : Config B S) where
  -- What a call does: it is turned away, refused, answered again, or accepted.
  abbrev pub Called : Request → Server S → Outcome S → Type 0
  Called req s o =
      TurnedAway s o
      ⊎ ((fences : List (FenceKey × FenceMark)) × FenceStep (machine_of req) (token_of req) s fences
          × (Kept (record s { fences = fences }) o
              ⊎ ((m : Machine) × Accepted cfg.opts.operation_id_prefix (machine_of req)
                    (timeout_of cfg req) (operation_of req) m (record s { fences = fences }) o)))

  pub call-Called : (req : Request) (s : Server S) → Called req s (call cfg req s)
  call-Called req s = elim (Bool-cases (is_admissible cfg req)) [
    | inl y ↦ inr (
        rw (call-dispatch cfg req s y) (
          dispatch-Dispatched cfg.store cfg.opts.operation_id_prefix (machine_of req)
            (timeout_of cfg req) (operation_of req) (token_of req) s))
    | inr n ↦ inl (call-TurnedAway cfg req s n)
  ]

  Called-Fits :
      (rz : Bool) (req : Request) (s : Server S) (o : Outcome S)
      → Called req s o
      → Fits rz s
      → Fits rz o.server
  Called-Fits rz req s o (inl t) f = rw t.server f
  Called-Fits rz req s o (inr (fences, step, inl k)) f =
      Fits-same rz s o.server k.machines k.ops
        (rw k.fences (FenceStep-Distinct _ _ s fences step f.fences)) f
  Called-Fits rz req s o (inr (fences, step, inr (m, a))) f =
      Fits-insert rz s o.server (machine_of req) _ a.machines
        (rw a.ops (insert-Distinct _ _ s.ops f.ops))
        (rw a.fences (FenceStep-Distinct _ _ s fences step f.fences))
        (entered-Sound rz (machine_of req) (operation_of req) m (f.sound _ m a.was) a.startable) f

  -- A call on a server with a sound inventory leaves a sound inventory.
  pub call-Fits :
      (rz : Bool) (req : Request) (s : Server S) → Fits rz s → Fits rz (call cfg req s).server
  call-Fits rz req s f = Called-Fits rz req s (call cfg req s) (call-Called req s) f

  -- A call leaves a store that keeps what it is given in step, if it was in step.
  pub call-Synced :
      Durable cfg.store
      → (req : Request) (s : Server S) → Synced cfg.store s
      → Synced cfg.store (call cfg req s).server
  call-Synced d req s h = elim (Bool-cases (is_admissible cfg req)) [
    | inl y ↦ rw (call-dispatch cfg req s y) (dispatch-Synced cfg.store d _ _ _ _ _ s h)
    | inr n ↦ rw (call-TurnedAway cfg req s n).server h
  ]
