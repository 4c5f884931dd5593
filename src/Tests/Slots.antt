-- ===== src/Tests/Slots.antt =====
-- The theorems on what the AWS provider describes.
use Prim.Native.Char.{code}
use text.Mathlib.TextLemmas.{head-eq_of_cons-eq}
use bigfleet_providers.Prelude.{
  pos, max_int64, String, Bool, true, false, List, [], ◌∷◌, Result, ok, err, ◌≡◌, ◌≢◌, refl, ap,
  arith,
}
use bigfleet_providers.Kit.Errors.{Error}
use bigfleet_providers.Kit.Lifecycle.{CapacityType}
use bigfleet_providers.Kit.Instance.{Instance}
use bigfleet_providers.Kit.Server.{string_key}
use bigfleet_providers.Kit.Startup.Seeding.{NoTwins}
use bigfleet_providers.Aws.Ec2.{Ec2Instance}
use bigfleet_providers.Aws.Offering.{Offering}
use bigfleet_providers.Aws.Fake.{Fake, new_fake, launched}
use bigfleet_providers.Aws.Backend.{AwsState, slot, speculative_slots}
use bigfleet_providers.Kit.Instance.{CreateInstanceRequest, CreateInstanceResult, to_machine}
use bigfleet_providers.Aws.Actuation.{create_instance}
use bigfleet_providers.Aws.InstanceTypes.{allocatable, new_cache}
use bigfleet_providers.Aws.Fake.{fake_id}
use bigfleet_providers.Prelude.{none}
use bigfleet_providers.Aws.Backend.Ids.{Plain, no_slash}
use bigfleet_providers.Aws.Backend.Distinct.{Differs, speculative_slots-NoTwins}
use bigfleet_providers.Tests.Aws.{provider, spec, fresh, offer}

-- A region in which the slot has an instance.
abbrev backing : Ec2Instance
backing =
    launched (record spec { machine_id = (slot provider CapacityType.on_demand offer 0 fresh).id })
      (pos 1)

abbrev restarted : AwsState Fake
restarted = record fresh { ec2 = record new_fake { instances = ("i-fake00000001", backing) ∷ [] } }

abbrev answer : Result Error (List Instance) → List Instance
answer (ok is) = is
answer (err e) = []

is_ok : Result Error (List Instance) → Bool
is_ok (ok is) = true
is_ok (err e) = false

-- A provider with an offering in a second zone.
abbrev other_offer : Offering
other_offer = record offer { zone = "b" }

offer-Plain : Plain offer
unfolding no_slash max_int64
offer-Plain = record { instance_type = refl; zone = refl; count = ground arith }

other-Plain : Plain other_offer
unfolding no_slash max_int64
other-Plain = record { instance_type = refl; zone = refl; count = ground arith }

offers-Differ : Differs offer other_offer
offers-Differ h = zones h.2
  where
    zones : ◌≢◌ {A = String} "a" "b"
    zones e = different (ap code (head-eq_of_cons-eq e))
      where
        different : code "a" ≡ code "b" → ⊥
        different q = ground arith

speculative_slots-NoTwins_example :
    NoTwins (speculative_slots (record provider { offerings = offer ∷ other_offer ∷ [] }) restarted)
speculative_slots-NoTwins_example =
    speculative_slots-NoTwins (record provider { offerings = offer ∷ other_offer ∷ [] }) restarted
      (offer-Plain, (other-Plain, tt)) ((offers-Differ, tt), (tt, tt))

-- A create for the first slot of a fresh provider.
abbrev first_slot : Instance
first_slot = slot provider CapacityType.on_demand offer 0 fresh

abbrev create : CreateInstanceRequest
create = record { operation_id = "op-1"; machine = to_machine first_slot }

abbrev after_create : AwsState Fake
after_create = (create_instance provider create fresh).1

abbrev new_host : CreateInstanceResult
new_host = record {
  host = record { provider = "aws"; ref = fake_id (pos 1) };
  resources = none;
  allocatable = allocatable "m6i.large" new_cache;
}
