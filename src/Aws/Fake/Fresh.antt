-- ===== src/Aws/Fake/Fresh.antt =====
-- A launch of the simulator never takes the id of another instance.
use bigfleet_providers.Prelude.{
  ℕ, suc, ◌+◌, ◌≤◌, ◌<◌, pos, inc, max_int64, String, String-discrete, Option, none, some, List, [],
  ◌∷◌, length, get, insert, remove, get-insert_ne, get-remove, Every, insert-Every, ◌≡◌, ◌≢◌, inl,
  inr, refl, sym, ap, subst, ◌∙◌, arith, Option-cases,
}
use text.Mathlib.TextLemmas.{append_cancel_left}
use bigfleet_providers.Prelude.Text.{padded_injective}
use bigfleet_providers.Kit.Server.{string_key}
use bigfleet_providers.Aws.Ec2.{RunSpec, Ec2Instance}
use bigfleet_providers.Aws.Fake.{
  Fake, fake_id, new_fake, launched, launch, by_token, run_instance, terminate_instance,
  terminate_found, bind_found, apply_bootstrap, drain_node,
}
use bigfleet_providers.Aws.Fake.Tokens.{run_new, run_old}

-- The calls of the simulator that write.
pub data Call : Type 0 where
  run : RunSpec → Call
  terminate : String → Call
  bootstrap : String → String → Call
  drain : String → Call

unfoldable pub after : Call → Fake → Fake
after (run spec) f = (run_instance spec f).1
after (terminate id) f = (terminate_instance id f).1
after (bootstrap id cluster) f = (apply_bootstrap id cluster f).1
after (drain id) f = (drain_node id f).1

unfoldable pub after_all : List Call → Fake → Fake
after_all [] f = f
after_all (c ∷ cs) f = after_all cs (after c f)

-- The ids are those of the launches so far, of which there were `n`.
pub record Numbered (n : ℕ) (f : Fake) : Type 0 where
  pub seq : f.seq ≡ pos n
  pub ids : Every (λ id inst. (k : ℕ) × (k ≤ n) × (id ≡ fake_id (pos k))) f.instances

fake_id_injective :
    (m n : ℕ) → m ≤ max_int64 → n ≤ max_int64 → fake_id (pos m) ≡ fake_id (pos n) → m ≡ n
unfolding fake_id
fake_id_injective m n hm hn e = padded_injective 8 m n hm hn (append_cancel_left "i-fake" _ _ e)

inc-pos : (n : ℕ) → n < max_int64 → inc (pos n) ≡ pos (suc n)
unfolding inc
inc-pos n h = ground arith

-- The id of the next launch is not in use.
fresh-id :
    (n : ℕ) (f : Fake) → n < max_int64 → Numbered n f → get (fake_id (inc f.seq)) f.instances ≡ none
fresh-id n f h w = elim (Option-cases (get (fake_id (inc f.seq)) f.instances)) [
  | inl e ↦ e
  | inr (inst, g) ↦ absurd (used (w.ids (fake_id (inc f.seq)) inst g))
]
  where
    next : inc f.seq ≡ pos (suc n)
    next = ap inc w.seq ∙ inc-pos n h

    apart : (k : ℕ) → k ≤ n → suc n ≡ k → ⊥
    apart k le e = omega arith

    used : (k : ℕ) × (k ≤ n) × (fake_id (inc f.seq) ≡ fake_id (pos k)) → ⊥
    used (k, le, e) =
        apart k le
          (fake_id_injective (suc n) k (omega arith) (omega arith) (ap fake_id (sym next) ∙ e))

-- At most `n` launches.
abbrev Within : ℕ → Fake → Type 0
Within n f = (m : ℕ) × (m ≤ n) × Numbered m f

launch-Numbered :
    (spec : RunSpec) (n : ℕ) (f : Fake)
    → n < max_int64
    → Numbered n f
    → Numbered (suc n) (launch spec f).1
unfolding launch
launch-Numbered spec n f h w = record {
  seq = next;
  ids =
      insert-Every (λ id inst. (k : ℕ) × (k ≤ suc n) × (id ≡ fake_id (pos k))) (fake_id (inc f.seq))
        (launched spec (inc f.seq)) f.instances (λ id inst g. wider id (w.ids id inst g))
        (suc n, omega arith, ap fake_id next);
}
  where
    next : inc f.seq ≡ pos (suc n)
    next = ap inc w.seq ∙ inc-pos n h

    wider :
        (id : String)
        → (k : ℕ) × (k ≤ n) × (id ≡ fake_id (pos k))
        → (k : ℕ) × (k ≤ suc n) × (id ≡ fake_id (pos k))
    wider id (k, le, e) = (k, omega arith, e)

-- A call that changes entries or drops them.
same-Numbered :
    (n : ℕ) (f g : Fake)
    → g.seq ≡ f.seq
    → ((id : String) (inst : Ec2Instance)
        → get id g.instances ≡ some inst
        → (old : Ec2Instance) × (get id f.instances ≡ some old))
    → Numbered n f
    → Numbered n g
same-Numbered n f g e h w = record {
  seq = e ∙ w.seq;
  ids = λ id inst q. let (old, was) = h id inst q in w.ids id old was;
}

terminate-Numbered :
    (id : String) (n : ℕ) (f : Fake) → Numbered n f → Numbered n (terminate_instance id f).1
unfolding terminate_instance
terminate-Numbered id n f w = with_found (get id f.instances)
  where
    was :
        (j : String) (inst : Ec2Instance)
        → get j (remove id f.instances) ≡ some inst
        → (old : Ec2Instance) × (get j f.instances ≡ some old)
    was j inst q = (inst, ground (arith, get-remove j id f.instances))

    with_found : (o : Option Ec2Instance) → Numbered n (terminate_found o id f).1
    with_found none = unfold terminate_found in w
    with_found (some inst) =
        unfold terminate_found in
        same-Numbered n f (record f { instances = remove id f.instances }) refl was w

bind-Numbered :
    (what id cluster : String) (n : ℕ) (f : Fake)
    → Numbered n f
    → Numbered n (bind_found (get id f.instances) what id cluster f).1
bind-Numbered what id cluster n f w = elim (Option-cases (get id f.instances)) [
  | inl e ↦ rw e (unfold bind_found in w)
  | inr (inst, g) ↦ rw g (bound inst g)
]
  where
    was :
        (inst : Ec2Instance)
        → get id f.instances ≡ some inst
        → (j : String) (i : Ec2Instance)
        → get j (insert id (record inst { cluster_id = cluster }) f.instances) ≡ some i
        → (old : Ec2Instance) × (get j f.instances ≡ some old)
    was inst g j i q = elim (String-discrete id j) [
      | yes e ↦ (inst, ap (λ k. get k f.instances) (sym e) ∙ g)
      | no e ↦
          (i, sym (get-insert_ne j id (record inst { cluster_id = cluster }) f.instances e) ∙ q)
    ]

    bound :
        (inst : Ec2Instance)
        → get id f.instances ≡ some inst
        → Numbered n (bind_found (some inst) what id cluster f).1
    bound inst g =
        unfold bind_found in
        same-Numbered n f
          (record f { instances = insert id (record inst { cluster_id = cluster }) f.instances })
          refl (was inst g) w

after-Within :
    (c : Call) (n : ℕ) (f : Fake) → n < max_int64 → Within n f → Within (suc n) (after c f)
unfolding after apply_bootstrap drain_node
after-Within (run spec) n f h (m, le, w) = elim (Option-cases (by_token spec.idempotency_token f)) [
  | inl e ↦
      subst (λ r. Within (suc n) r.1) (sym (run_new spec f e))
        (suc m, omega arith, launch-Numbered spec m f (omega arith) w)
  | inr (old, e) ↦ subst (λ r. Within (suc n) r.1) (sym (run_old spec f old e)) (m, omega arith, w)
]
after-Within (terminate id) n f h (m, le, w) = (m, omega arith, terminate-Numbered id m f w)
after-Within (bootstrap id cluster) n f h (m, le, w) =
    (m, omega arith, bind-Numbered _ id cluster m f w)
after-Within (drain id) n f h (m, le, w) = (m, omega arith, bind-Numbered _ id "" m f w)

after_all-Within :
    (cs : List Call) (n : ℕ) (f : Fake)
    → n + length cs ≤ max_int64
    → Within n f
    → Within (n + length cs) (after_all cs f)
unfolding after_all
after_all-Within [] n f h w = rw (plus_zero n) w
  where
    plus_zero : (n : ℕ) → n + 0 ≡ n
    plus_zero n = omega arith
after_all-Within (c ∷ cs) n f h w =
    subst (λ k. Within k (after_all cs (after c f))) (shift n (length cs))
      (after_all-Within cs (suc n) (after c f) (omega arith) (after-Within c n f (omega arith) w))
  where
    shift : (a b : ℕ) → suc a + b ≡ a + suc b
    shift a b = omega arith

launch-keeps :
    (spec : RunSpec) (n : ℕ) (f : Fake) (j : String) (inst : Ec2Instance)
    → n < max_int64
    → Numbered n f
    → get j f.instances ≡ some inst
    → get j (launch spec f).1.instances ≡ some inst
unfolding launch
launch-keeps spec n f j inst h w g =
    get-insert_ne j (fake_id (inc f.seq)) (launched spec (inc f.seq)) f.instances other ∙ g
  where
    other : fake_id (inc f.seq) ≢ j
    other e = clash (sym (fresh-id n f h w) ∙ ap (λ k. get k f.instances) e ∙ g)
      where
        clash : Path (Option Ec2Instance) none (some inst) → ⊥
        clash q = cc

-- After fewer than 2 ^ 63 - 1 calls on a new simulator, a launch leaves every instance that is
-- there as it is: it takes no id that is in use.
pub run_instance-keeps :
    (cs : List Call) (spec : RunSpec) (j : String) (inst : Ec2Instance)
    → length cs < max_int64
    → get j (after_all cs new_fake).instances ≡ some inst
    → get j (run_instance spec (after_all cs new_fake)).1.instances ≡ some inst
run_instance-keeps cs spec j inst h g = kept (after_all-Within cs 0 new_fake (omega arith) begin)
  where
    begin : Within 0 new_fake
    begin = unfold new_fake get in (0, omega arith, record { seq = refl; ids = λ id i q. cc })

    kept :
        Within (0 + length cs) (after_all cs new_fake)
        → get j (run_instance spec (after_all cs new_fake)).1.instances ≡ some inst
    kept (m, le, w) =
        elim (Option-cases (by_token spec.idempotency_token (after_all cs new_fake))) [
          | inl e ↦
              rw (run_new spec (after_all cs new_fake) e)
                (launch-keeps spec m (after_all cs new_fake) j inst (omega arith) w g)
          | inr (old, e) ↦ rw (run_old spec (after_all cs new_fake) old e) g
        ]
