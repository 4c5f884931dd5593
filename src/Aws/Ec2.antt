-- ===== src/Aws/Ec2.antt =====
-- providers/aws/ec2.go: the substrate that the AWS backend drives, and the strings of the
-- bigfleet:capacity tag of providers/aws/backend.go.
pub mod Laws
use bigfleet_providers.Prelude.{ℕ, ℤ, String, Bool, List, Result, ite, String-discrete, ◌≡◌, refl}
use bigfleet_providers.Prelude.Float.{Float}
use bigfleet_providers.Kit.Errors.{Error}
use bigfleet_providers.Kit.Lifecycle.{CapacityType}

-- `runSpec`.
pub record RunSpec : Type 0 where
  pub machine_id : String
  pub instance_type : String
  pub zone : String
  pub spot : Bool
  pub capacity : String
  pub idempotency_token : String
  pub base_user_data : List ℕ

-- `ec2Instance`.
pub record Ec2Instance : Type 0 where
  pub instance_id : String
  pub machine_id : String
  pub instance_type : String
  pub zone : String
  pub spot : Bool
  pub private_dns : String
  pub cluster_id : String
  pub capacity : String
  pub running : Bool

-- `instanceCapacity` of providers/aws/instancetypes.go.
pub record InstanceCapacity : Type 0 where
  pub vcpu : ℤ
  pub mem_mib : ℤ

-- The interface `ec2Client`, over the state `E` of the region.
pub record Ec2Client (E : Type 0) : Type 0 where
  pub run_instance : RunSpec → E → Result Error Ec2Instance × E
  pub terminate_instance : String → E → Result Error (Unit {0}) × E
  pub describe_managed : E → Result Error (List Ec2Instance)
  pub apply_bootstrap : String → String → List ℕ → E → Result Error (Unit {0}) × E
  pub drain_node : String → ℤ → E → Result Error (Unit {0}) × E
  pub spot_price_usd : String → String → E → Result Error Float
  pub on_demand_prices_usd : List String → E → Result Error (List (String × Float))
  pub describe_instance_capacities :
      List String → E → Result Error (List (String × InstanceCapacity))

-- `capacityString`.
unfoldable pub capacity_string : CapacityType → String
capacity_string CapacityType.spot = "spot"
capacity_string CapacityType.reserved = "reserved"
capacity_string CapacityType.bare_metal = "bare_metal"
capacity_string CapacityType.on_demand = "on_demand"
capacity_string CapacityType.unspecified = ""

-- `parseCapacityTag`.
unfoldable pub parse_capacity_tag : String → CapacityType
parse_capacity_tag s = ite (String-discrete s "spot") CapacityType.spot (
    ite (String-discrete s "reserved") CapacityType.reserved (
      ite (String-discrete s "bare_metal") CapacityType.bare_metal
        (ite (String-discrete s "on_demand") CapacityType.on_demand CapacityType.unspecified)))

-- The capacity type of a machine is read back from the tag of its instance.
pub parse_capacity_tag-capacity_string :
    (c : CapacityType) → parse_capacity_tag (capacity_string c) ≡ c
unfolding capacity_string parse_capacity_tag String-discrete
parse_capacity_tag-capacity_string CapacityType.spot = refl
parse_capacity_tag-capacity_string CapacityType.reserved = refl
parse_capacity_tag-capacity_string CapacityType.bare_metal = refl
parse_capacity_tag-capacity_string CapacityType.on_demand = refl
parse_capacity_tag-capacity_string CapacityType.unspecified = refl
