-- ===== src/Aws/Fake/Refines.antt =====
-- The simulator keeps what the interface of the client promises.
use bigfleet_providers.Prelude.{
  inc, String, Option, none, some, List, map, get, remove, get-insert_self, get-remove, Result, ok,
  err, ◌≡◌, ◌≢◌, ◌↔◌, refl, sym, ap, subst, ◌∙◌, arith, ◌⊎◌, inl, inr, Option-cases,
}
use mathlib.Core.List.{Memᴰ}
use bigfleet_providers.Kit.Errors.{Error}
use bigfleet_providers.Kit.Server.{string_key}
use bigfleet_providers.Aws.Ec2.{RunSpec, Ec2Instance}
use bigfleet_providers.Aws.Ec2.Laws.{Has, LaunchedAs, Ec2Laws}
use bigfleet_providers.Aws.Fake.{
  Fake, fake_id, launched, launch, by_token, run_instance, terminate_found, terminate_instance,
  bind_found, apply_bootstrap, drain_node, fake_client,
}
use bigfleet_providers.Aws.Fake.Entries.{
  Valid, Mem_of_get, get_of_Mem, Mem-values, values-Mem, insert-Valid, remove-Valid, run-Valid,
  terminate-Valid, bind-Valid,
}
use bigfleet_providers.Aws.Fake.Tokens.{
  ok_injective, by_token_lem, run_new, run_old, by_token-launch,
}

module _ (order : List (String × Ec2Instance) → List (String × Ec2Instance))
    (visits : (m : List (String × Ec2Instance)) (e : String × Ec2Instance)
      → Memᴰ e (order m) ↔ Memᴰ e m) where
  -- What is described is what the map has.
  Has-get :
      (f : Fake) (inst : Ec2Instance)
      → Valid f
      → Has (fake_client order) f inst ↔ (get inst.instance_id f.instances ≡ some inst)
  unfolding fake_client
  Has-get f inst v = (
    λ h. found h.0 h.1 h.2,
    λ g. (
      _,
      refl,
      values-Mem (inst.instance_id, inst) (order f.instances)
          ((visits f.instances (inst.instance_id, inst)).1
            (Mem_of_get inst.instance_id inst f.instances g)),
    ),
  )
    where
      same :
          (xs ys : List Ec2Instance)
          → Path (Result Error (List Ec2Instance)) (ok xs) (ok ys)
          → xs ≡ ys
      same xs ys q = cc

      found :
          (is : List Ec2Instance)
          → Path (Result Error (List Ec2Instance)) (ok (map (λ e. e.1) (order f.instances))) (ok is)
          → Memᴰ inst is
          → get inst.instance_id f.instances ≡ some inst
      found is q m =
          let (id, k) =
            Mem-values inst (order f.instances) (subst (Memᴰ inst) (sym (same _ is q)) m) in
          let g =
            get_of_Mem (id, inst) f.instances v.distinct ((visits f.instances (id, inst)).0 k) in
          subst (λ j. get j f.instances ≡ some inst) (sym (v.ids id inst g)) g

  -- What a launch promises of its result.
  abbrev Launches : RunSpec → Fake → Result Error Ec2Instance × Fake → Type 0
  Launches spec f r =
      (inst : Ec2Instance)
      → r.0 ≡ ok inst
      → Has (fake_client order) r.1 inst
        × (LaunchedAs spec inst ⊎ ((spec.idempotency_token ≢ "") × Has (fake_client order) f inst))

  new-Launches :
      (spec : RunSpec) (f : Fake)
      → Valid f
      → Valid (launch spec f).1
      → Launches spec f (ok (launched spec (inc f.seq)), (launch spec f).1)
  unfolding launch launched
  new-Launches spec f v w inst q =
      subst
        (λ i.
          Has (fake_client order) (launch spec f).1 i
          × (LaunchedAs spec i ⊎ ((spec.idempotency_token ≢ "") × Has (fake_client order) f i)))
        (ok_injective (launched spec (inc f.seq)) inst q)
        (
          (Has-get (launch spec f).1 (launched spec (inc f.seq)) w).1
              (get-insert_self (fake_id (inc f.seq)) (launched spec (inc f.seq)) f.instances),
          inl (record {
            machine_id = refl;
            instance_type = refl;
            zone = refl;
            spot = refl;
            capacity = refl;
            unbound = refl;
            running = refl;
          }),
        )

  old-Launches :
      (spec : RunSpec) (f : Fake) (old : Ec2Instance)
      → Valid f
      → by_token spec.idempotency_token f ≡ some old
      → Launches spec f (ok old, f)
  old-Launches spec f old v e inst q =
      let (set, (id, g)) = by_token_lem spec.idempotency_token f old e in
      let there =
        (Has-get f old v).1 (subst (λ k. get k f.instances ≡ some old) (sym (v.ids id old g)) g) in
      subst
        (λ i.
          Has (fake_client order) f i
          × (LaunchedAs spec i ⊎ ((spec.idempotency_token ≢ "") × Has (fake_client order) f i)))
        (ok_injective old inst q) (there, inr (set, there))

  run-Launches : (spec : RunSpec) (f : Fake) → Valid f → Launches spec f (run_instance spec f)
  run-Launches spec f v = elim (Option-cases (by_token spec.idempotency_token f)) [
    | inl n ↦
        subst (Launches spec f) (sym (run_new spec f n))
          (new-Launches spec f v (subst (λ r. Valid r.1) (run_new spec f n) (run-Valid spec f v)))
    | inr (old, e) ↦
        subst (Launches spec f) (sym (run_old spec f old e)) (old-Launches spec f old v e)
  ]

  -- A launch with the token of another gets its instance.
  again :
      (spec more : RunSpec) (f : Fake) (inst : Ec2Instance)
      → more.idempotency_token ≡ spec.idempotency_token
      → by_token spec.idempotency_token f ≡ some inst
      → run_instance more f ≡ (ok inst, f)
  again spec more f inst e h = run_old more f inst (ap (λ t. by_token t f) e ∙ h)

  run-repeats :
      (spec more : RunSpec) (f : Fake) (inst : Ec2Instance)
      → spec.idempotency_token ≢ ""
      → more.idempotency_token ≡ spec.idempotency_token
      → (run_instance spec f).0 ≡ ok inst
      → run_instance more (run_instance spec f).1 ≡ (ok inst, (run_instance spec f).1)
  run-repeats spec more f inst set e = elim (Option-cases (by_token spec.idempotency_token f)) [
    | inl n ↦ rw (run_new spec f n) (λ q.
        again spec more (launch spec f).1 inst e
          (by_token-launch spec f set ∙ ap some (ok_injective (launched spec (inc f.seq)) inst q)))
    | inr (old, k) ↦
        rw (run_old spec f old k)
          (λ q. again spec more f inst e (k ∙ ap some (ok_injective old inst q)))
  ]

  terminate_lem :
      (id : String) (f : Fake)
      → (terminate_instance id f).0 ≡ ok tt
      → terminate_instance id f ≡ (ok tt, record f { instances = remove id f.instances })
  unfolding terminate_instance
  terminate_lem id f h = with_found (get id f.instances) h
    where
      with_found :
          (o : Option Ec2Instance)
          → (terminate_found o id f).0 ≡ ok tt
          → terminate_found o id f ≡ (ok tt, record f { instances = remove id f.instances })
      with_found none q = absurd (clash (unfold terminate_found in q))
        where
          clash :
              Path
                (Result Error (Unit {0}))
                (err (Error.other "ec2fake: terminate unknown instance"))
                (ok tt)
              → ⊥
          clash k = cc
      with_found (some inst) q = unfold terminate_found in refl

  run-terminates :
      (id : String) (f : Fake)
      → Valid f
      → (terminate_instance id f).0 ≡ ok tt
      → (inst : Ec2Instance) → Has (fake_client order) (terminate_instance id f).1 inst
      → (inst.instance_id ≢ id) × Has (fake_client order) f inst
  run-terminates id f v h inst k =
      let after = subst (λ r. Has (fake_client order) r.1 inst) (terminate_lem id f h) k in
      let g =
        (Has-get (record f { instances = remove id f.instances }) inst (remove-Valid id f v)).0
          after in
      (λ e. gone e g, (Has-get f inst v).1 (was g))
    where
      gone : inst.instance_id ≡ id → get inst.instance_id (remove id f.instances) ≡ some inst → ⊥
      gone e g = ground (arith, get-remove inst.instance_id id f.instances)

      was :
          get inst.instance_id (remove id f.instances) ≡ some inst
          → get inst.instance_id f.instances ≡ some inst
      was g = ground (arith, get-remove inst.instance_id id f.instances)

  run-spares :
      (id : String) (f : Fake) (inst : Ec2Instance)
      → Valid f
      → inst.instance_id ≢ id
      → Has (fake_client order) f inst
      → Has (fake_client order) (terminate_instance id f).1 inst
  unfolding terminate_instance
  run-spares id f inst v n k = with_found (get id f.instances)
    where
      still :
          get inst.instance_id f.instances ≡ some inst
          → get inst.instance_id (remove id f.instances) ≡ some inst
      still g = ground (arith, get-remove inst.instance_id id f.instances, n)

      with_found :
          (o : Option Ec2Instance) → Has (fake_client order) (terminate_found o id f).1 inst
      with_found none = unfold terminate_found in k
      with_found (some other) =
          unfold terminate_found in
          (Has-get (record f { instances = remove id f.instances }) inst (remove-Valid id f v)).1
            (still ((Has-get f inst v).0 k))

  run-binds :
      (what id cluster : String) (f : Fake) (inst : Ec2Instance)
      → Valid f
      → inst.instance_id ≡ id
      → Has (fake_client order) f inst
      → Has
          (fake_client order)
          (bind_found (get id f.instances) what id cluster f).1
          (record inst { cluster_id = cluster })
  unfolding bind_found
  run-binds what id cluster f inst v e k = rw (← e) (
      rw ((Has-get f inst v).0 k) (
        (Has-get _ (record inst { cluster_id = cluster })
            (insert-Valid f (record inst { cluster_id = cluster }) f.seq f.by_token v)).1
          (get-insert_self inst.instance_id (record inst { cluster_id = cluster }) f.instances)))

  -- If the runtime visits the entries of a map and no other: the simulator keeps, on every state in
  -- which each instance stands once under its own id, what the interface of the client promises.
  pub fake_client-Ec2Laws : Ec2Laws (fake_client order) Valid
  unfolding fake_client
  fake_client-Ec2Laws = record {
    run-Valid = run-Valid;
    terminate-Valid = terminate-Valid;
    bootstrap-Valid = λ id cluster blob f v. unfold apply_bootstrap in bind-Valid _ id cluster f v;
    drain-Valid = λ id grace f v. unfold drain_node in bind-Valid _ id "" f v;
    launches = λ spec f inst v h. run-Launches spec f v inst h;
    repeats = λ spec more f inst v set e h. run-repeats spec more f inst set e h;
    terminates = λ id f v h inst k. run-terminates id f v h inst k;
    spares = λ id f inst v n k. run-spares id f inst v n k;
    binds = λ id cluster blob f inst v e k.
        unfold apply_bootstrap in run-binds _ id cluster f inst v e k;
    unbinds = λ id grace f inst v e k. unfold drain_node in run-binds _ id "" f inst v e k;
  }
