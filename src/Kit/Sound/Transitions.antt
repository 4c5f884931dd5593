-- ===== src/Kit/Sound/Transitions.antt =====
-- The records that a transition enters and settles in are sound.
use bigfleet_providers.Prelude.{String, Bool, true, none, some, ok, err, ◌≡◌, refl}
use bigfleet_providers.Kit.Lifecycle.{State, Kind, transitional, stable, can_start}
use bigfleet_providers.Kit.Lifecycle.Edges.{can_start-origin}
use bigfleet_providers.Kit.Errors.{Error}
use bigfleet_providers.Kit.Machine.{Machine, no_host_ref, no_host_ref-empty}
use bigfleet_providers.Kit.Operation.{
  Operation, OpResult, kind_of, pre_effect, create_effect, drain_effect, delete_effect,
}
use bigfleet_providers.Kit.Operation.Results.{ResultFits}
use bigfleet_providers.Kit.Dispatch.{entered, settle}
use bigfleet_providers.Kit.Sound.{Sound, Sound-change, host_in, binding_in, error_in}

module _ (rz : Bool) (id : String) where
  -- The record of an accepted transition.
  pub entered-Sound :
      (op : Operation) (m : Machine)
      → Sound rz id m
      → can_start m.state (kind_of op) ≡ true
      → Sound rz id (entered op m)
  unfolding entered pre_effect kind_of transitional
  entered-Sound Operation.create m s h =
      let e = can_start-origin m.state Kind.create h in
      Sound-change rz id State.creating m.host m.cluster m.shard_metadata m.resources m.allocatable
        m.last_error s (host_in s e) (binding_in s e) (error_in s e)
  entered-Sound (Operation.configure c blob md) m s h =
      let e = can_start-origin m.state Kind.configure h in
      Sound-change rz id State.configuring m.host c md m.resources m.allocatable m.last_error s
        (host_in s e) tt (error_in s e)
  entered-Sound (Operation.drain g) m s h =
      let e = can_start-origin m.state Kind.drain h in
      Sound-change rz id State.draining m.host m.cluster m.shard_metadata m.resources m.allocatable
        m.last_error s (host_in s e) tt (error_in s e)
  entered-Sound Operation.delete m s h =
      let e = can_start-origin m.state Kind.delete h in
      Sound-change rz id State.deleting m.host m.cluster m.shard_metadata m.resources m.allocatable
        m.last_error s (host_in s e) (binding_in s e) (error_in s e)

  -- The record of a failed transition.
  pub failed-Sound :
      (m : Machine) (e : Error)
      → Sound rz id m
      → Sound rz id (record m { state = State.failed; last_error = some e })
  failed-Sound m e s =
      Sound-change rz id State.failed m.host m.cluster m.shard_metadata m.resources m.allocatable
        (some e) s tt tt (λ p. cc)

  -- The record of a completed transition.
  pub settle-Sound :
      (op : Operation) (r : OpResult) (m : Machine)
      → Sound rz id m
      → m.state ≡ transitional (kind_of op)
      → ResultFits op r
      → Sound rz id (settle (kind_of op) r m)
  unfolding settle kind_of transitional stable drain_effect delete_effect create_effect
  settle-Sound Operation.create (err x) m s e f = failed-Sound m x s
  settle-Sound Operation.create (ok none) m s e f = absurd f
  settle-Sound Operation.create (ok (some g)) m s e (res, h, q) = rw q (
      Sound-change rz id State.idle res.host m.cluster m.shard_metadata _ _ m.last_error s h
        (binding_in s e) (error_in s e))
  settle-Sound (Operation.configure c b md) (err x) m s e f = failed-Sound m x s
  settle-Sound (Operation.configure c b md) (ok none) m s e f =
      Sound-change rz id State.configured m.host m.cluster m.shard_metadata m.resources
        m.allocatable m.last_error s (host_in s e) tt (error_in s e)
  settle-Sound (Operation.configure c b md) (ok (some g)) m s e f = absurd f
  settle-Sound (Operation.drain g) (err x) m s e f = failed-Sound m x s
  settle-Sound (Operation.drain g) (ok none) m s e f = absurd f
  settle-Sound (Operation.drain g) (ok (some h)) m s e q = rw q (
      Sound-change rz id State.idle m.host "" none m.resources m.allocatable m.last_error s
        (host_in s e) (refl, refl) (error_in s e))
  settle-Sound Operation.delete (err x) m s e f = failed-Sound m x s
  settle-Sound Operation.delete (ok none) m s e f = absurd f
  settle-Sound Operation.delete (ok (some h)) m s e q = rw q (
      Sound-change rz id State.speculative no_host_ref m.cluster m.shard_metadata m.resources
        m.allocatable m.last_error s no_host_ref-empty (binding_in s e) (error_in s e))
