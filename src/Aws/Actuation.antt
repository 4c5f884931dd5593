-- ===== src/Aws/Actuation.antt =====
-- providers/aws/backend.go: the four calls that work on EC2, the backend that they make for the
-- kit, and the refreshes of prices and instance types. `sort` stands for `sort.Strings`.
pub mod Unpriced
pub mod Failures
pub mod Simulated
pub mod Listed
use bigfleet_providers.Prelude.{
  ℕ, String, Bool, true, false, none, some, List, [], ◌∷◌, map, Result, ok, err, if◌then◌else◌,
}
use bigfleet_providers.Prelude.Float.{zero_float, le_float}
use bigfleet_providers.Kit.Errors.{Error}
use bigfleet_providers.Kit.Fence.{is_empty}
use bigfleet_providers.Kit.Lifecycle.{CapacityType}
use bigfleet_providers.Kit.Machine.{Machine}
use bigfleet_providers.Kit.Instance.{
  Backend, CreateInstanceRequest, CreateInstanceResult, ConfigureInstanceRequest,
  DrainInstanceRequest, DeleteInstanceRequest, is_spot,
}
use bigfleet_providers.Aws.Ec2.{RunSpec, Ec2Instance, capacity_string}
use bigfleet_providers.Aws.Offering.{Offering, capacity_type}
use bigfleet_providers.Aws.Interruption.{clear}
use bigfleet_providers.Aws.InstanceTypes.{allocatable, listed, resolve}
use bigfleet_providers.Aws.Pricing.{SpotPair, price, spot_key, refresh, refresh_on_demand}
use bigfleet_providers.Aws.Backend.{AwsBackend, AwsState, capacity_or_zero, describe}

-- The state after a call of the client.
abbrev pub with_region : {E : Type 0} → E → AwsState E → AwsState E
with_region e s = record s { ec2 = e }

module _ {E : Type 0} (b : AwsBackend E) where
  -- The launch of a machine.
  unfoldable pub run_spec : Machine → String → RunSpec
  run_spec m token = record {
    machine_id = m.id;
    instance_type = m.instance_type;
    zone = m.zone;
    spot = is_spot m.capacity_type;
    capacity = capacity_string m.capacity_type;
    idempotency_token = token;
    base_user_data = b.base_user_data;
  }

  unfoldable pub created :
      Result Error Ec2Instance → Machine → AwsState E → Result Error CreateInstanceResult
  created (err e) m s = err e
  created (ok inst) m s =
      if is_empty inst.instance_id
      then err (Error.other "RunInstances returned no instance id")
      else ok (record {
        host = record { provider = b.provider_name; ref = inst.instance_id };
        resources = none;
        allocatable = allocatable m.instance_type s.instance_types;
      })

  -- `CreateInstance`.
  unfoldable pub create_instance :
      CreateInstanceRequest → AwsState E → Result Error CreateInstanceResult × AwsState E
  unfolding created
  create_instance req s =
      let (r, e) = b.ec2.run_instance (run_spec req.machine req.operation_id) s.ec2 in
      (created r req.machine s, with_region e s)

  -- `ConfigureInstance`.
  unfoldable pub configure_instance :
      ConfigureInstanceRequest → AwsState E → Result Error (Unit {0}) × AwsState E
  configure_instance req s =
      if is_empty req.machine.host.ref
      then (err (Error.other "configure: machine has no host"), s)
      else let (r, e) =
          b.ec2.apply_bootstrap req.machine.host.ref req.cluster_id req.bootstrap_blob s.ec2 in
        (r, with_region e s)

  -- `DrainInstance`.
  unfoldable pub drain_instance :
      DrainInstanceRequest → AwsState E → Result Error (Unit {0}) × AwsState E
  drain_instance req s =
      if is_empty req.machine.host.ref
      then (err (Error.other "drain: machine has no host"), s)
      else let (r, e) = b.ec2.drain_node req.machine.host.ref req.grace_period_seconds s.ec2 in
        (r, with_region e s)

  -- What a termination leaves: only one that worked drops the observed interruption.
  unfoldable pub terminated :
      Result Error (Unit {0}) → String → AwsState E → Result Error (Unit {0}) × AwsState E
  terminated (err e) id s = (err e, s)
  terminated (ok u) id s = (ok tt, record s { interruption = clear id s.interruption })

  -- `DeleteInstance`.
  unfoldable pub delete_instance :
      DeleteInstanceRequest → AwsState E → Result Error (Unit {0}) × AwsState E
  unfolding terminated
  delete_instance req s =
      if is_empty req.machine.host.ref
      then (err (Error.other "delete: machine has no host"), s)
      else let (r, e) = b.ec2.terminate_instance req.machine.host.ref s.ec2 in
        terminated r req.machine.id (with_region e s)

  -- `awsBackend` as a `Backend` and `Deleter` of the kit.
  unfoldable pub aws_backend :
      (List (String × Ec2Instance) → List (String × Ec2Instance)) → Backend (AwsState E)
  aws_backend order = record {
    describe = describe b order;
    create_instance = create_instance;
    configure_instance = configure_instance;
    drain_instance = drain_instance;
    delete_instance = some delete_instance;
    confirm_node_ready = none;
  }

  -- The loop of `spotPairs`; `seen` are the keys that it has.
  pairs_from : List String → List Offering → List SpotPair
  pairs_from seen [] = []
  pairs_from seen (off ∷ offs) =
      let k = spot_key off.instance_type off.zone in
      elim (is_spot (capacity_or_zero (capacity_type off))) [
        | false ↦ pairs_from seen offs
        | true ↦ elim (listed k seen) [
          | true ↦ pairs_from seen offs
          | false ↦
              record { instance_type = off.instance_type; zone = off.zone }
              ∷ pairs_from (k ∷ seen) offs
        ]
      ]

  -- `spotPairs`.
  unfoldable pub spot_pairs : List SpotPair
  unfolding pairs_from
  spot_pairs = pairs_from [] b.offerings

  -- `offeredTypes`.
  unfoldable pub offered_types : List String
  offered_types = map (λ off. off.instance_type) b.offerings

  -- `refreshPrices`: the state, and the number of pairs that failed.
  unfoldable pub refresh_prices : AwsState E → AwsState E × ℕ
  refresh_prices s =
      let (p, failures) = refresh b.ec2 spot_pairs s.ec2 s.pricing in
      (record s { pricing = p }, failures)

  -- `refreshOnDemandPrices`.
  unfoldable pub refresh_on_demand_prices : AwsState E → AwsState E × ℕ
  refresh_on_demand_prices s =
      let (p, failed) = refresh_on_demand b.ec2 offered_types s.ec2 s.pricing in
      (record s { pricing = p }, failed)

  abbrev pub billed_on_demand : CapacityType → Bool
  billed_on_demand CapacityType.on_demand = true
  billed_on_demand CapacityType.reserved = true
  billed_on_demand _ = false

  -- The loop of `unpricedOnDemand`; `seen` are the types that it has.
  unfoldable pub unpriced_from : List String → List Offering → AwsState E → List String
  unpriced_from seen [] s = []
  unpriced_from seen (off ∷ offs) s =
      let capacity = capacity_or_zero (capacity_type off) in
      elim (billed_on_demand capacity) [
        | false ↦ unpriced_from seen offs s
        | true ↦ elim (listed off.instance_type seen) [
          | true ↦ unpriced_from seen offs s
          | false ↦
              let bad = unpriced_from (off.instance_type ∷ seen) offs s in
              if le_float (price off.instance_type off.zone capacity s.pricing) zero_float
              then off.instance_type ∷ bad
              else bad
        ]
      ]

  module _ (sort : List String → List String) where
    -- `unpricedOnDemand`.
    unfoldable pub unpriced_on_demand : AwsState E → List String
    unpriced_on_demand s = sort (unpriced_from [] b.offerings s)

    -- `refreshInstanceTypes`.
    unfoldable pub refresh_instance_types : AwsState E → AwsState E × ℕ
    refresh_instance_types s =
        let (cache, missing) = resolve sort b.ec2 offered_types s.ec2 s.instance_types in
        (record s { instance_types = cache }, missing)
