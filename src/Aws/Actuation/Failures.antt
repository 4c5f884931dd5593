-- ===== src/Aws/Actuation/Failures.antt =====
-- An actuation that fails leaves the provider and the region as they were.
use bigfleet_providers.Prelude.{
  arith, ℕ, ℤ, String, Bool, true, false, List, Result, ok, err, ◌≡◌, refl, ap, arith,
  if◌then◌else◌,
}
use bigfleet_providers.Kit.Errors.{Error}
use bigfleet_providers.Kit.Fence.{is_empty}
use bigfleet_providers.Kit.Machine.{Machine}
use bigfleet_providers.Kit.Instance.{
  CreateInstanceRequest, ConfigureInstanceRequest, DrainInstanceRequest, DeleteInstanceRequest,
}
use bigfleet_providers.Kit.Server.{string_key}
use bigfleet_providers.Aws.Ec2.{RunSpec, Ec2Instance, Ec2Client}
use bigfleet_providers.Aws.Backend.{AwsBackend, AwsState}
use bigfleet_providers.Aws.Actuation.{
  created, create_instance, configure_instance, drain_instance, delete_instance, terminated,
  with_region, run_spec,
}

-- What fails leaves its state.
abbrev pub KeepsOnError : {A E : Type 0} → Result Error A × E → E → Type 0
KeepsOnError {A} r e = (x : Error) → r.0 ≡ err x → r.1 ≡ e

-- A region of which a call that fails changes nothing, and a launch that works names its instance.
pub record Clean {E : Type 0} (client : Ec2Client E) (e : E) : Type 0 where
  pub run : (spec : RunSpec) → KeepsOnError (client.run_instance spec e) e
  pub named :
      (spec : RunSpec) (inst : Ec2Instance)
      → (client.run_instance spec e).0 ≡ ok inst
      → is_empty inst.instance_id ≡ false
  pub terminate : (id : String) → KeepsOnError (client.terminate_instance id e) e
  pub bootstrap :
      (id cluster : String) (blob : List ℕ)
      → KeepsOnError (client.apply_bootstrap id cluster blob e) e
  pub drain : (id : String) (grace : ℤ) → KeepsOnError (client.drain_node id grace e) e

-- The result of a call of the client, with what it leaves of the provider.
through :
    {A E : Type 0} (r : Result Error A × E) (s : AwsState E)
    → KeepsOnError r s.ec2
    → KeepsOnError (r.0, with_region r.1 s) s
through r s k x h = ap (λ e. with_region e s) (k x h)

module _ {E : Type 0} (b : AwsBackend E) where
  created-KeepsOnError :
      (r : Result Error Ec2Instance × E) (m : Machine) (s : AwsState E)
      → KeepsOnError r s.ec2
      → ((inst : Ec2Instance) → r.0 ≡ ok inst → is_empty inst.instance_id ≡ false)
      → KeepsOnError (created b r.0 m s, with_region r.1 s) s
  unfolding created
  created-KeepsOnError (err e, e') m s k named = λ x h. ap (λ e. with_region e s) (k e refl)
  created-KeepsOnError (ok inst, e') m s k named = λ x h. absurd (clash x (named inst refl) h)
    where
      clash : (x : Error) → is_empty inst.instance_id ≡ false → created b (ok inst) m s ≡ err x → ⊥
      clash x n h = ground arith

  guarded :
      (empty : Bool) (x : Error) (r : Result Error (Unit {0}) × AwsState E) (s : AwsState E)
      → KeepsOnError r s
      → KeepsOnError (if empty then (err x, s) else r) s
  guarded true x r s k = λ y h. refl
  guarded false x r s k = k

  terminated-KeepsOnError :
      (r : Result Error (Unit {0}) × E) (id : String) (s : AwsState E)
      → KeepsOnError r s.ec2
      → KeepsOnError (terminated b r.0 id (with_region r.1 s)) s
  unfolding terminated
  terminated-KeepsOnError (err e, e') id s k = λ x h. ap (λ e. with_region e s) (k e refl)
  terminated-KeepsOnError (ok u, e') id s k = λ x h. absurd (clash x h)
    where
      clash : (x : Error) → Path (Result Error (Unit {0})) (ok tt) (err x) → ⊥
      clash x q = cc

  -- The calls of the backend that work on the region.
  pub record Actuations (s : AwsState E) : Type 0 where
    pub create : (req : CreateInstanceRequest) → KeepsOnError (create_instance b req s) s
    pub configure : (req : ConfigureInstanceRequest) → KeepsOnError (configure_instance b req s) s
    pub drain : (req : DrainInstanceRequest) → KeepsOnError (drain_instance b req s) s
    pub delete : (req : DeleteInstanceRequest) → KeepsOnError (delete_instance b req s) s

  -- Over a region of which a call that fails changes nothing.
  pub failed-Actuations : (s : AwsState E) → Clean b.ec2 s.ec2 → Actuations s
  unfolding create_instance configure_instance drain_instance delete_instance
  failed-Actuations s clean = record {
    create = λ req.
        created-KeepsOnError (b.ec2.run_instance (run_spec b req.machine req.operation_id) s.ec2)
          req.machine s (clean.run _) (clean.named _);
    configure = λ req. guarded (is_empty req.machine.host.ref) _ _ s (
        through (b.ec2.apply_bootstrap req.machine.host.ref req.cluster_id req.bootstrap_blob s.ec2)
          s (clean.bootstrap _ _ _));
    drain = λ req. guarded (is_empty req.machine.host.ref) _ _ s (
        through (b.ec2.drain_node req.machine.host.ref req.grace_period_seconds s.ec2) s
          (clean.drain _ _));
    delete = λ req. guarded (is_empty req.machine.host.ref) _ _ s (
        terminated-KeepsOnError (b.ec2.terminate_instance req.machine.host.ref s.ec2) req.machine.id
          s (clean.terminate _));
  }
