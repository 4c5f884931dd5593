-- ===== src/Aws/Fake.antt =====
-- providers/aws/ec2fake.go: the simulator of EC2. `order` is the order in which the runtime goes
-- through the map of instances.
pub mod Entries
pub mod Tokens
pub mod Refines
pub mod Fresh
use bigfleet_providers.Prelude.{
  ℕ, zero, suc, ◌%◌, ℤ, pos, negsuc, inc, String, String-discrete, true, Option, none, some, List,
  [], ◌∷◌, map, get, insert, remove, Result, ok, err, ite,
}
use Prim.Native.String.{◌++◌}
use bigfleet_providers.Prelude.Decimal.{format_int}
use bigfleet_providers.Prelude.Float.{Float, dyadic}
use bigfleet_providers.Prelude.Text.{padded}
use bigfleet_providers.Kit.Errors.{Error}
use bigfleet_providers.Kit.Server.{string_key}
use bigfleet_providers.Aws.Ec2.{RunSpec, Ec2Instance, Ec2Client}
use bigfleet_providers.Aws.InstanceTypes.{instance_type_table}
use bigfleet_providers.Aws.Pricing.{on_demand_us_east_1}

-- `ec2Fake`.
pub record Fake : Type 0 where
  pub seq : ℤ
  pub instances : List (String × Ec2Instance)
  pub by_token : List (String × String)
  pub spot_usd : Float

-- `newEC2Fake`.
unfoldable pub new_fake : Fake
new_fake = record {
  seq = pos 0;
  instances = [];
  by_token = [];
  spot_usd = dyadic 1242993497154257 55;
}

-- `i % 250 + 1` on an int.
abbrev host_number : ℤ → ℤ
host_number (pos n) = pos (suc (n % 250))
host_number (negsuc n) = one_minus (suc n % 250)
  where
    one_minus : ℕ → ℤ
    one_minus zero = pos 1
    one_minus (suc zero) = pos 0
    one_minus (suc (suc k)) = negsuc k

unfoldable pub fake_id : ℤ → String
fake_id seq = "i-fake" ++ padded 8 seq

-- The instance that is launched.
unfoldable pub launched : RunSpec → ℤ → Ec2Instance
launched spec seq = record {
  instance_id = fake_id seq;
  machine_id = spec.machine_id;
  instance_type = spec.instance_type;
  zone = spec.zone;
  spot = spec.spot;
  private_dns = "ip-10-0-0-" ++ (format_int (host_number seq) ++ ".ec2.internal");
  cluster_id = "";
  capacity = spec.capacity;
  running = true;
}

-- An empty token is not recorded.
unfoldable pub record_token : String → String → List (String × String) → List (String × String)
record_token token id by_token = ite (String-discrete token "") by_token (insert token id by_token)

unfoldable pub launch : RunSpec → Fake → Ec2Instance × Fake
unfolding launched
launch spec f =
    let seq = inc f.seq in
    (
      launched spec seq,
      record f {
        seq = seq;
        instances = insert (fake_id seq) (launched spec seq) f.instances;
        by_token = record_token spec.idempotency_token (fake_id seq) f.by_token;
      },
    )

-- The instance that a token launched, if it is still there.
unfoldable pub known_instance : Option String → Fake → Option Ec2Instance
known_instance none f = none
known_instance (some id) f = get id f.instances

unfoldable pub by_token : String → Fake → Option Ec2Instance
unfolding known_instance
by_token token f = ite (String-discrete token "") none (known_instance (get token f.by_token) f)

unfoldable pub run_known : Option Ec2Instance → RunSpec → Fake → Result Error Ec2Instance × Fake
run_known (some inst) spec f = (ok inst, f)
run_known none spec f = let (inst, f') = launch spec f in (ok inst, f')

-- `RunInstance`.
unfoldable pub run_instance : RunSpec → Fake → Result Error Ec2Instance × Fake
run_instance spec f = run_known (by_token spec.idempotency_token f) spec f

unfoldable pub terminate_found : Option Ec2Instance → String → Fake → Result Error (Unit {0}) × Fake
terminate_found none id f = (err (Error.other "ec2fake: terminate unknown instance"), f)
terminate_found (some inst) id f = (ok tt, record f { instances = remove id f.instances })

-- `TerminateInstance`.
unfoldable pub terminate_instance : String → Fake → Result Error (Unit {0}) × Fake
unfolding terminate_found
terminate_instance id f = terminate_found (get id f.instances) id f

-- The write to the cluster tag of an instance, through its pointer.
unfoldable pub bind_found :
    Option Ec2Instance → String → String → String → Fake → Result Error (Unit {0}) × Fake
bind_found none what id cluster f = (err (Error.other what), f)
bind_found (some inst) what id cluster f =
    (ok tt, record f { instances = insert id (record inst { cluster_id = cluster }) f.instances })

-- `ApplyBootstrap`.
unfoldable pub apply_bootstrap : String → String → Fake → Result Error (Unit {0}) × Fake
unfolding bind_found
apply_bootstrap id cluster f =
    bind_found (get id f.instances) "ec2fake: configure unknown instance" id cluster f

-- `DrainNode`.
unfoldable pub drain_node : String → Fake → Result Error (Unit {0}) × Fake
unfolding bind_found
drain_node id f = bind_found (get id f.instances) "ec2fake: drain unknown instance" id "" f

-- The entries of a table for the types that are asked for.
unfoldable pub select_types : {V : Type 0} → List (String × V) → List String → List (String × V)
select_types table [] = []
select_types table (t ∷ ts) =
    let rest = select_types table ts in
    elim (get t table) [ none ↦ rest | some v ↦ insert t v rest ]

-- `ec2Fake` as a client.
unfoldable pub fake_client :
    (List (String × Ec2Instance) → List (String × Ec2Instance)) → Ec2Client Fake
fake_client order = record {
  run_instance = run_instance;
  terminate_instance = terminate_instance;
  describe_managed = λ f. ok (map (λ e. e.1) (order f.instances));
  apply_bootstrap = λ id cluster blob f. apply_bootstrap id cluster f;
  drain_node = λ id grace f. drain_node id f;
  spot_price_usd = λ t z f. ok f.spot_usd;
  on_demand_prices_usd = λ ts f. ok (select_types on_demand_us_east_1 ts);
  describe_instance_capacities = λ ts f. ok (select_types instance_type_table ts);
}
