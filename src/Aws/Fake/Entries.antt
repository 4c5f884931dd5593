-- ===== src/Aws/Fake/Entries.antt =====
-- The map of instances of the simulator: each instance stands once, under its own id.
use bigfleet_providers.Prelude.{
  ℤ, inc, String, String-discrete, Option, none, some, List, [], ◌∷◌, map, get, insert, remove,
  get-remove, Distinct, insert-Distinct, Every, insert-Every, ◌≡◌, ◌≢◌, refl, sym, ap, subst, ◌∙◌,
  arith, inl, inr, Option-cases, if_pos, if_neg,
}
use mathlib.Core.List.{Memᴰ}
use bigfleet_providers.Kit.Server.{string_key}
use bigfleet_providers.Aws.Ec2.{RunSpec, Ec2Instance}
use bigfleet_providers.Aws.Fake.{
  Fake, fake_id, launched, record_token, launch, by_token, run_known, run_instance, terminate_found,
  terminate_instance, bind_found,
}

-- Every instance stands once, under its own id.
pub record Valid (f : Fake) : Type 0 where
  pub ids : Every (λ id inst. inst.instance_id ≡ id) f.instances
  pub distinct : Distinct f.instances

pub Mem_of_get :
    (id : String) (inst : Ec2Instance) (m : List (String × Ec2Instance))
    → get id m ≡ some inst
    → Memᴰ (id, inst) m
unfolding get
Mem_of_get id inst [] h = cc
Mem_of_get id inst (e ∷ m) h = elim (String-discrete e.0 id) [
  | yes p ↦ Memᴰ.head (same p (sym (if_pos (String-discrete e.0 id) p _ _) ∙ h))
  | no p ↦ Memᴰ.tail (Mem_of_get id inst m (sym (if_neg (String-discrete e.0 id) p _ _) ∙ h))
]
  where
    same : e.0 ≡ id → some e.1 ≡ some inst → Path (String × Ec2Instance) (id, inst) e
    same p q = cc

pub get_of_Mem :
    (e : String × Ec2Instance) (m : List (String × Ec2Instance))
    → Distinct m
    → Memᴰ e m
    → get e.0 m ≡ some e.1
unfolding get
get_of_Mem e [] d h = elim h [ ]
get_of_Mem e (x ∷ m) d (Memᴰ.head q) = rw q (if_pos (String-discrete x.0 x.0) refl _ _)
get_of_Mem e (x ∷ m) d (Memᴰ.tail h) = elim (String-discrete x.0 e.0) [
  | yes p ↦ absurd (clash p (get_of_Mem e m d.1 h))
  | no p ↦ if_neg (String-discrete x.0 e.0) p _ _ ∙ get_of_Mem e m d.1 h
]
  where
    clash : x.0 ≡ e.0 → get e.0 m ≡ some e.1 → ⊥
    clash p g = cc (p, g, d.0)

pub Mem-values :
    (inst : Ec2Instance) (m : List (String × Ec2Instance))
    → Memᴰ inst (map (λ e. e.1) m)
    → (id : String) × Memᴰ (id, inst) m
Mem-values inst [] h = elim h [ ]
Mem-values inst (e ∷ m) (Memᴰ.head q) = (e.0, Memᴰ.head (same q))
  where
    same : inst ≡ e.1 → Path (String × Ec2Instance) (e.0, inst) e
    same q = cc
Mem-values inst (e ∷ m) (Memᴰ.tail h) = let (id, k) = Mem-values inst m h in (id, Memᴰ.tail k)

pub values-Mem :
    (e : String × Ec2Instance) (m : List (String × Ec2Instance))
    → Memᴰ e m
    → Memᴰ e.1 (map (λ x. x.1) m)
values-Mem e [] h = elim h [ ]
values-Mem e (x ∷ m) (Memᴰ.head q) = Memᴰ.head (ap (λ y. y.1) q)
values-Mem e (x ∷ m) (Memᴰ.tail h) = Memᴰ.tail (values-Mem e m h)

remove-Distinct :
    (k : String) (m : List (String × Ec2Instance)) → Distinct m → Distinct (remove k m)
unfolding remove
remove-Distinct k [] d = tt
remove-Distinct k (e ∷ m) d = elim (String-discrete e.0 k) [
  | yes p ↦ rw (if_pos _ p) (remove-Distinct k m d.1)
  | no p ↦ rw (if_neg _ p) (absent p, remove-Distinct k m d.1)
]
  where
    absent : e.0 ≢ k → get e.0 (remove k m) ≡ none
    absent p = ground (arith, get-remove e.0 k m, d.0)

pub insert-Valid :
    (f : Fake) (inst : Ec2Instance) (seq : ℤ) (tokens : List (String × String))
    → Valid f
    → Valid (record f {
      seq = seq;
      instances = insert inst.instance_id inst f.instances;
      by_token = tokens;
    })
insert-Valid f inst seq tokens v = record {
  ids =
      insert-Every (λ id inst. inst.instance_id ≡ id) inst.instance_id inst f.instances v.ids refl;
  distinct = insert-Distinct inst.instance_id inst f.instances v.distinct;
}

pub remove-Valid :
    (id : String) (f : Fake) → Valid f → Valid (record f { instances = remove id f.instances })
remove-Valid id f v = record {
  ids = λ j inst g. v.ids j inst (ground (arith, get-remove j id f.instances, g));
  distinct = remove-Distinct id f.instances v.distinct;
}

pub run-Valid : (spec : RunSpec) (f : Fake) → Valid f → Valid (run_instance spec f).1
unfolding run_instance
run-Valid spec f v = with_known (by_token spec.idempotency_token f)
  where
    with_known : (o : Option Ec2Instance) → Valid (run_known o spec f).1
    with_known (some inst) = unfold run_known in v
    with_known none =
        unfold run_known launch launched in
        insert-Valid f (launched spec (inc f.seq)) (inc f.seq)
          (record_token spec.idempotency_token (fake_id (inc f.seq)) f.by_token) v

pub terminate-Valid : (id : String) (f : Fake) → Valid f → Valid (terminate_instance id f).1
unfolding terminate_instance
terminate-Valid id f v = with_found (get id f.instances)
  where
    with_found : (o : Option Ec2Instance) → Valid (terminate_found o id f).1
    with_found none = unfold terminate_found in v
    with_found (some inst) = unfold terminate_found in remove-Valid id f v

pub bind-Valid :
    (what id cluster : String) (f : Fake)
    → Valid f
    → Valid (bind_found (get id f.instances) what id cluster f).1
bind-Valid what id cluster f v = elim (Option-cases (get id f.instances)) [
  | inl n ↦ rw n (unfold bind_found in v)
  | inr (inst, g) ↦ rw g (bound inst (v.ids id inst g))
]
  where
    bound :
        (inst : Ec2Instance)
        → inst.instance_id ≡ id
        → Valid (bind_found (some inst) what id cluster f).1
    bound inst q =
        unfold bind_found in
        subst
          (λ k.
            Valid (record f {
              instances = insert k (record inst { cluster_id = cluster }) f.instances;
            }))
          q (insert-Valid f (record inst { cluster_id = cluster }) f.seq f.by_token v)
