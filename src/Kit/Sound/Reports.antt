-- ===== src/Kit/Sound/Reports.antt =====
-- The records that the kit makes of reported instances, and of interrupted transitions, are sound.
use bigfleet_providers.Prelude.{String, Bool, none, refl}
use bigfleet_providers.Kit.Lifecycle.{State}
use bigfleet_providers.Kit.Machine.{Machine, HostRef}
use bigfleet_providers.Kit.Instance.{Instance, effective_state, to_machine}
use bigfleet_providers.Kit.Instance.Shape.{RestFits, InShape}
use bigfleet_providers.Kit.Startup.{interrupted}
use bigfleet_providers.Kit.Sound.{HostFits, BindingFits, ErrorFits, Sound}
use bigfleet_providers.Kit.Sound.Transitions.{failed-Sound}

-- A resting state is sound without a binding and without an error.
resting :
    (t : State) (h : HostRef)
    → RestFits t h
    → HostFits t h × BindingFits t "" none × ErrorFits t none
resting State.speculative h f = (f, (refl, refl), refl)
resting State.idle h f = (f, (refl, refl), refl)
resting State.unspecified h f = absurd f
resting State.creating h f = absurd f
resting State.configuring h f = absurd f
resting State.configured h f = absurd f
resting State.draining h f = absurd f
resting State.deleting h f = absurd f
resting State.failed h f = absurd f

module _ (rz : Bool) (i : Instance) (shape : InShape rz i) where
  -- The record of an instance that passed `validate`.
  pub to_machine-Sound : Sound rz i.id (to_machine i)
  unfolding to_machine
  to_machine-Sound =
      let (host, binding, error) = resting (effective_state i) i.host shape.rest in
      record {
        key_is_id = refl;
        id = shape.id;
        instance_type = shape.instance_type;
        capacity_type = shape.capacity_type;
        zone = shape.zone;
        price = shape.price;
        probability = shape.probability;
        host = host;
        binding = binding;
        error = error;
      }

-- The record of an interrupted transition.
pub interrupted-Sound :
    (rz : Bool) (id : String) (m : Machine) → Sound rz id m → Sound rz id (interrupted m)
unfolding interrupted
interrupted-Sound rz id m s = failed-Sound rz id m _ s
