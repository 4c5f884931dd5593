-- ===== src/Aws/Fake/Tokens.antt =====
-- The launches of the simulator: a token that is known yields its instance, and launches none.
use bigfleet_providers.Prelude.{
  inc, String, String-discrete, Option, none, some, get, get-insert_self, Result, ok, ◌≡◌, ◌≢◌,
  refl, sym, ap, ◌∙◌, if_pos, if_neg,
}
use bigfleet_providers.Kit.Errors.{Error}
use bigfleet_providers.Kit.Server.{string_key}
use bigfleet_providers.Aws.Ec2.{RunSpec, Ec2Instance}
use bigfleet_providers.Aws.Fake.{
  Fake, fake_id, launched, record_token, launch, known_instance, by_token, run_known, run_instance,
}

pub ok_injective : (x y : Ec2Instance) → Path (Result Error Ec2Instance) (ok x) (ok y) → x ≡ y
ok_injective x y q = cc

-- An instance that a token finds is there, and the token is set.
pub by_token_lem :
    (t : String) (f : Fake) (inst : Ec2Instance)
    → by_token t f ≡ some inst
    → (t ≢ "") × ((id : String) × (get id f.instances ≡ some inst))
unfolding by_token
by_token_lem t f inst h = elim (String-discrete t "") [
  | yes e ↦ absurd (clash (sym (if_pos (String-discrete t "") e _ _) ∙ h))
  | no n ↦ (n, by_id (get t f.by_token) (sym (if_neg (String-discrete t "") n _ _) ∙ h))
]
  where
    clash : Path (Option Ec2Instance) none (some inst) → ⊥
    clash q = cc

    by_id :
        (o : Option String)
        → known_instance o f ≡ some inst
        → (id : String) × (get id f.instances ≡ some inst)
    by_id none q = absurd (clash (unfold known_instance in q))
    by_id (some id) q = (id, unfold known_instance in q)

pub run_new :
    (spec : RunSpec) (f : Fake)
    → by_token spec.idempotency_token f ≡ none
    → run_instance spec f ≡ (ok (launched spec (inc f.seq)), (launch spec f).1)
unfolding run_instance run_known launch
run_new spec f n = rw n refl

pub run_old :
    (spec : RunSpec) (f : Fake) (inst : Ec2Instance)
    → by_token spec.idempotency_token f ≡ some inst
    → run_instance spec f ≡ (ok inst, f)
unfolding run_instance run_known
run_old spec f inst h = rw h refl

-- What a token launched is found again by it.
pub by_token-launch :
    (spec : RunSpec) (f : Fake)
    → spec.idempotency_token ≢ ""
    → by_token spec.idempotency_token (launch spec f).1 ≡ some (launched spec (inc f.seq))
unfolding by_token launch record_token known_instance
by_token-launch spec f n =
    if_neg (String-discrete t "") n _ _
    ∙ ap (λ tokens. known_instance (get t tokens) (launch spec f).1)
        (if_neg (String-discrete t "") n _ _)
    ∙ ap (λ o. known_instance o (launch spec f).1) (get-insert_self t id f.by_token)
    ∙ get-insert_self id (launched spec (inc f.seq)) f.instances
  where
    t : String
    t = spec.idempotency_token

    id : String
    id = fake_id (inc f.seq)
