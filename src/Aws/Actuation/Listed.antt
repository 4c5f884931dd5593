-- ===== src/Aws/Actuation/Listed.antt =====
-- What `Describe` lists after a `CreateInstance` that worked.
use bigfleet_providers.Prelude.{String, Option, none, some, List, ◌≡◌, ◌⊎◌}
use mathlib.Core.List.{Memᴰ}
use bigfleet_providers.Kit.Machine.{Machine}
use bigfleet_providers.Kit.Instance.{Instance}
use bigfleet_providers.Aws.Ec2.{Ec2Instance}

-- An instance of the list that carries the id.
abbrev Carrier : String → List Ec2Instance → Ec2Instance → Type 0
Carrier id ms x = (x.machine_id ≡ id) × Memᴰ x ms

-- Either an instance that carries the id owns it, or none carries it.
abbrev Owners : String → List Ec2Instance → Option Ec2Instance → Type 0
Owners id ms o =
    ((y : Ec2Instance) × (o ≡ some y) × Carrier id ms y)
    ⊎ ((o ≡ none) × ((x : Ec2Instance) → Carrier id ms x → ⊥))
