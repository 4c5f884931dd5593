-- ===== src/Aws/Backend/Slots.antt =====
-- What `Describe` says of the slots, against the last managed instance that carries the id.
use bigfleet_providers.Prelude.{
  String, String-discrete, Option, none, some, List, [], ◌∷◌, ◌≡◌, refl, ite,
}
use mathlib.Core.List.{Memᴰ}
use mathlib.Core.List.Memᴰ
use bigfleet_providers.Kit.Instance.{Instance}
use bigfleet_providers.Kit.Server.{string_key}
use bigfleet_providers.Aws.Ec2.{Ec2Instance}

-- The last of the instances that carries the id as its tag.
unfoldable pub owner : String → List Ec2Instance → Option Ec2Instance
owner id [] = none
owner id (m ∷ ms) = elim (owner id ms) [
  | some x ↦ some x
  | none ↦ ite (String-discrete m.machine_id id) (some m) none
]

abbrev pub or_else : Option Ec2Instance → Option Ec2Instance → Option Ec2Instance
or_else none o = o
or_else (some x) o = some x

pub owner_cons :
    (id : String) (m : Ec2Instance) (ms : List Ec2Instance)
    → owner id (m ∷ ms)
      ≡ or_else (owner id ms) (ite (String-discrete m.machine_id id) (some m) none)
unfolding owner
owner_cons id m ms = same (owner id ms) (ite (String-discrete m.machine_id id) (some m) none)
  where
    same : (o p : Option Ec2Instance) → elim o [ some x ↦ some x | none ↦ p ] ≡ or_else o p
    same none p = refl
    same (some x) p = refl
