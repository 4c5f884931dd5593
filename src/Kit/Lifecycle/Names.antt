-- ===== src/Kit/Lifecycle/Names.antt =====
-- The names under which the states, capacity types and kinds are persisted are read back.
use bigfleet_providers.Prelude.{◌≡◌, refl}
use bigfleet_providers.Kit.Lifecycle.{
  State, CapacityType, Kind, state_name, state_of_name, capacity_name, capacity_of_name, kind_name,
  kind_of_name,
}

-- A state is read back from its name.
pub state_of_name-state_name : (s : State) → state_of_name (state_name s) ≡ s
unfolding state_of_name state_name
state_of_name-state_name State.speculative = refl
state_of_name-state_name _ = refl

-- A capacity type is read back from its name.
pub capacity_of_name-capacity_name : (c : CapacityType) → capacity_of_name (capacity_name c) ≡ c
unfolding capacity_of_name capacity_name
capacity_of_name-capacity_name CapacityType.spot = refl
capacity_of_name-capacity_name _ = refl

-- A kind is read back from its name.
pub kind_of_name-kind_name : (k : Kind) → kind_of_name (kind_name k) ≡ k
unfolding kind_of_name kind_name
kind_of_name-kind_name Kind.create = refl
kind_of_name-kind_name _ = refl
