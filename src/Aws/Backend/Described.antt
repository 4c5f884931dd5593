-- ===== src/Aws/Backend/Described.antt =====
-- What `Describe` answers with of the owned servers and of the orphans: instances in shape.
use bigfleet_providers.Prelude.{
  String, String-discrete, Bool, true, false, some, List, [], ◌∷◌, All, if_pos, if_neg, get, insert,
  remove, ◌≡◌, ◌≢◌, refl, sym, subst, ◌∙◌, arith, inl, inr, Bool-cases, if◌then◌else◌,
}
use bigfleet_providers.Kit.Fence.{is_empty}
use bigfleet_providers.Kit.Server.{string_key}
use bigfleet_providers.Aws.Ec2.{Ec2Instance}
use bigfleet_providers.Aws.Backend.{classify}

-- What EC2 says of a managed instance.
pub record Reported (inst : Ec2Instance) : Type 0 where
  pub instance_id : inst.instance_id ≢ ""
  pub instance_type : inst.instance_type ≢ ""
  pub zone : inst.zone ≢ ""

-- An owner with a tag.
abbrev pub Owner : String × Ec2Instance → Type 0
Owner e = (e.0 ≢ "") × Reported e.1

insert-Owner :
    (k : String) (v : Ec2Instance) (m : List (String × Ec2Instance))
    → k ≢ ""
    → Reported v
    → All Owner m
    → All Owner (insert k v m)
unfolding insert
insert-Owner k v [] n r h = ((n, r), tt)
insert-Owner k v (e ∷ m) n r h = elim (String-discrete e.0 k) [
  | yes p ↦ rw (if_pos _ p) ((n, r), h.1)
  | no p ↦ rw (if_neg _ p) (h.0, insert-Owner k v m n r h.1)
]

pub remove-Owner :
    (k : String) (m : List (String × Ec2Instance)) → All Owner m → All Owner (remove k m)
unfolding remove
remove-Owner k [] h = tt
remove-Owner k (e ∷ m) h = elim (String-discrete e.0 k) [
  | yes p ↦ rw (if_pos _ p) (remove-Owner k m h.1)
  | no p ↦ rw (if_neg _ p) (h.0, remove-Owner k m h.1)
]

pub get-Owner :
    (k : String) (v : Ec2Instance) (m : List (String × Ec2Instance))
    → All Owner m
    → get k m ≡ some v
    → Reported v
unfolding get
get-Owner k v [] h g = cc
get-Owner k v (e ∷ m) h g = elim (String-discrete e.0 k) [
  | yes p ↦ rw (← same (sym (if_pos (String-discrete e.0 k) p _ _) ∙ g)) h.0.1
  | no p ↦ get-Owner k v m h.1 (sym (if_neg (String-discrete e.0 k) p _ _) ∙ g)
]
  where
    same : some e.1 ≡ some v → e.1 ≡ v
    same q = cc

-- An instance with a tag owns its slot; of the others those that run are orphans.
pub classify_tagged :
    (m : Ec2Instance) (managed : List Ec2Instance) (by_slot : List (String × Ec2Instance))
    → is_empty m.machine_id ≡ false
    → classify (m ∷ managed) by_slot ≡ classify managed (insert m.machine_id m by_slot)
unfolding classify
classify_tagged m managed by_slot n = rw (classify, n) refl

abbrev pub with_orphan :
    Ec2Instance
    → List (String × Ec2Instance) × List Ec2Instance
    → List (String × Ec2Instance) × List Ec2Instance
with_orphan m c = (c.0, if m.running then m ∷ c.1 else c.1)

pub classify_untagged :
    (m : Ec2Instance) (managed : List Ec2Instance) (by_slot : List (String × Ec2Instance))
    → is_empty m.machine_id ≡ true
    → classify (m ∷ managed) by_slot ≡ with_orphan m (classify managed by_slot)
unfolding classify
classify_untagged m managed by_slot y = rw (classify, y) refl

-- Owners and orphans.
abbrev Classified : List (String × Ec2Instance) × List Ec2Instance → Type 0
Classified c = All Owner c.0 × All Reported c.1

with_orphan-Classified :
    (m : Ec2Instance) (c : List (String × Ec2Instance) × List Ec2Instance)
    → Reported m
    → Classified c
    → Classified (with_orphan m c)
with_orphan-Classified m c r h = (h.0, live m.running)
  where
    live : (b : Bool) → All Reported (if b then m ∷ c.1 else c.1)
    live true = (r, h.1)
    live false = h.1

-- The owners and orphans of managed instances.
pub classify-Classified :
    (managed : List Ec2Instance) (by_slot : List (String × Ec2Instance))
    → All Reported managed
    → All Owner by_slot
    → Classified (classify managed by_slot)
classify-Classified [] by_slot h o = (unfold classify in (o, tt))
classify-Classified (m ∷ managed) by_slot h o = elim (Bool-cases (is_empty m.machine_id)) [
  | inl y ↦
      subst Classified (sym (classify_untagged m managed by_slot y))
        (with_orphan-Classified m _ h.0 (classify-Classified managed by_slot h.1 o))
  | inr n ↦ subst Classified (sym (classify_tagged m managed by_slot n)) (
      classify-Classified managed (insert m.machine_id m by_slot) h.1
        (insert-Owner m.machine_id m by_slot (full n) h.0 o))
]
  where
    full : is_empty m.machine_id ≡ false → m.machine_id ≢ ""
    full n e = ground arith
