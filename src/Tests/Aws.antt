-- ===== src/Tests/Aws.antt =====
-- The theorems on the AWS provider, over the simulator of EC2.
use bigfleet_providers.Prelude.{
  pos, max_int64, inc, String, String-discrete, Bool, true, false, none, some, List, [], ◌∷◌, All,
  get, insert, remove, Result, ok, ◌≡◌, ◌≢◌, ◌↔◌, refl, subst, ap, ite, arith,
}
use mathlib.Core.List.{Memᴰ}
use bigfleet_providers.Prelude.Float.{Float, zero_float, dyadic}
use bigfleet_providers.Prelude.Decimal.{format_ℕ}
use bigfleet_providers.Kit.Errors.{Error}
use bigfleet_providers.Kit.Lifecycle.{CapacityType}
use bigfleet_providers.Kit.Instance.{Instance}
use bigfleet_providers.Kit.Instance.Shape.{PriceFits}
use bigfleet_providers.Kit.Store.{mem_store, empty_snapshot}
use bigfleet_providers.Kit.Server.{new_server, string_key}
use bigfleet_providers.Kit.Startup.{new, seed}
use bigfleet_providers.Kit.Startup.Seeding.{Seeded, Seedable, seed-Seeded}
use bigfleet_providers.Aws.Ec2.{RunSpec, Ec2Instance, Ec2Client}
use bigfleet_providers.Aws.Ec2.Laws.{Ec2Laws}
use bigfleet_providers.Aws.Offering.{Offering, capacity_type}
use bigfleet_providers.Aws.Interruption.{new_interruption}
use bigfleet_providers.Aws.InstanceTypes.{
  new_cache, resolve, dedupe_non_empty, distinct_from, skips, resolved, missing,
  instance_type_table,
}
use bigfleet_providers.Aws.InstanceTypes.Resolved.{Knows, resolve-Knows}
use bigfleet_providers.Aws.Pricing.{
  new_pricing, price, on_demand_price, live_or, on_demand_by_region, on_demand_us_east_1,
}
use bigfleet_providers.Prelude.Text.{padded, lower_is}
use bigfleet_providers.Tests.Life.{loaded, is-fresh}
use bigfleet_providers.Aws.Backend.Described.{Reported}
use bigfleet_providers.Aws.Pricing.Priced.{IsPriced, new_pricing-Priced}
use bigfleet_providers.Aws.Pricing.Refreshes.{
  Refresh, of_spot, of_on_demand, refreshed_all, price-refreshed_all, refreshed_all-IsPriced,
}
use bigfleet_providers.Aws.Fake.{
  Fake, new_fake, fake_client, launched, fake_id, run_instance, run_known, by_token, launch,
  record_token, select_types,
}
use bigfleet_providers.Aws.Fake.Entries.{Valid}
use bigfleet_providers.Aws.Fake.Refines.{fake_client-Ec2Laws}
use bigfleet_providers.Aws.Fake.Fresh.{run, after, after_all, run_instance-keeps}
use bigfleet_providers.Aws.Backend.{
  AwsBackend, AwsState, slot, speculative_slots, owned_slot, describe, described, classify, place,
  first_slots, check_offerings,
}
use bigfleet_providers.Aws.Backend.Start.{Serving, aws_config, new-Seeded}
use bigfleet_providers.Aws.Actuation.{unpriced_on_demand, unpriced_from}
use bigfleet_providers.Aws.Actuation.Unpriced.{OfferPriced, unpriced_on_demand-All}
use bigfleet_providers.Tests.Fixture.{config, options}
use bigfleet_providers.Tests.Fixture.{slot as a_slot}

-- The order of the map itself.
abbrev pub order : List (String × Ec2Instance) → List (String × Ec2Instance)
order m = m

abbrev sort : List String → List String
sort ts = ts

keeps : (t : String) (ts : List String) → Memᴰ t ts → Memᴰ t (sort ts)
keeps t ts m = m

abbrev pub offer : Offering
offer = record {
  instance_type = "m6i.large";
  zone = "a";
  capacity = "on_demand";
  count = pos 1;
  resources = none;
  labels = none;
}

abbrev pub provider : AwsBackend Fake
provider = record {
  provider_name = "aws";
  region = "us-east-1";
  ec2 = fake_client order;
  offerings = offer ∷ [];
  base_user_data = [];
}

abbrev pub fresh : AwsState Fake
fresh = record {
  ec2 = new_fake;
  pricing = new_pricing "us-east-1";
  interruption = new_interruption;
  instance_types = new_cache;
}

seed-Seeded_example :
    Seeded (seed config (a_slot ∷ []) (new_server empty_snapshot))
    ↔ ((is : List Instance) × (config.backend.describe (a_slot ∷ []) ≡ ok is) × Seedable true is)
seed-Seeded_example = seed-Seeded config (a_slot ∷ []) empty_snapshot

fake_client-Ec2Laws_example : Ec2Laws (fake_client order) Valid
fake_client-Ec2Laws_example = fake_client-Ec2Laws order (λ m e. (λ h. h, λ h. h))

abbrev pub spec : RunSpec
spec = record {
  machine_id = "m1";
  instance_type = "m6i.large";
  zone = "a";
  spot = false;
  capacity = "on_demand";
  idempotency_token = "op-1";
  base_user_data = [];
}

launched-there :
    get (fake_id (pos 1)) (after_all (run spec ∷ []) new_fake).instances
    ≡ some (launched spec (pos 1))
unfolding after_all after run_instance run_known by_token launch get insert fake_id new_fake inc
    max_int64 record_token String-discrete padded format_ℕ
launched-there = refl

run_instance-keeps_example :
    get
      (fake_id (pos 1))
      (run_instance
        (record spec { idempotency_token = "op-2" })
        (after_all (run spec ∷ []) new_fake)).1.instances
    ≡ some (launched spec (pos 1))
run_instance-keeps_example =
    run_instance-keeps (run spec ∷ []) (record spec { idempotency_token = "op-2" })
      (fake_id (pos 1)) (launched spec (pos 1)) (unfold max_int64 in omega arith) launched-there

-- A region with a constant spot price.
abbrev steady : Ec2Client Fake
steady = record (fake_client order) { spot_price_usd = λ t z f. ok zero_float }

steady_numbers :
    (t z : String) (f : Fake) (v : Float) → steady.spot_price_usd t z f ≡ ok v → PriceFits v
steady_numbers t z f v h = subst PriceFits (same h) (refl, refl)
  where
    same : Path (Result Error Float) (ok zero_float) (ok v) → zero_float ≡ v
    same q = cc

abbrev refreshes : List (Refresh steady steady_numbers)
refreshes = of_spot [] new_fake ∷ of_on_demand ("m6i.large" ∷ []) new_fake ∷ []

price-refreshed_all_example : PriceFits (
    price "m6i.large" "a" CapacityType.spot
      (refreshed_all steady steady_numbers refreshes (new_pricing "us-east-1")))
price-refreshed_all_example =
    price-refreshed_all steady steady_numbers refreshes "us-east-1" "m6i.large" "a"
      CapacityType.spot

cold-IsPriced :
    IsPriced "m6i.large" (refreshed_all steady steady_numbers [] (new_pricing "us-east-1"))
unfolding refreshed_all on_demand_price live_or new_pricing get on_demand_by_region
    on_demand_us_east_1 String-discrete dyadic
cold-IsPriced = refl

refreshed_all-IsPriced_example : IsPriced "m6i.large" (
    refreshed_all steady steady_numbers refreshes
      (refreshed_all steady steady_numbers [] (new_pricing "us-east-1")))
refreshed_all-IsPriced_example =
    refreshed_all-IsPriced steady steady_numbers [] refreshes "us-east-1" "m6i.large" cold-IsPriced

resolved-all : (resolve sort (fake_client order) ("m6i.large" ∷ []) new_fake new_cache).1 ≡ 0
unfolding resolve dedupe_non_empty distinct_from skips resolved missing fake_client select_types get
    insert instance_type_table String-discrete
resolved-all = refl

named : ◌≢◌ {A = String} "m6i.large" ""
named e = apart (ap (λ t. ite (String-discrete t "") true false) e)
  where
    apart :
        ite (String-discrete "m6i.large" "") true false ≡ ite (String-discrete "" "") true false → ⊥
    apart h = unfold String-discrete in different h
      where
        different : Path Bool false true → ⊥
        different q = cc

resolve-Knows_example :
    Knows (resolve sort (fake_client order) ("m6i.large" ∷ []) new_fake new_cache).0 "m6i.large"
resolve-Knows_example =
    resolve-Knows (fake_client order) sort keeps ("m6i.large" ∷ []) new_fake new_cache "m6i.large"
      resolved-all (Memᴰ.head refl) named

nothing-unpriced : unpriced_on_demand provider sort fresh ≡ []
unfolding unpriced_on_demand unpriced_from price on_demand_price live_or new_pricing get
    on_demand_by_region on_demand_us_east_1 String-discrete dyadic capacity_type lower_is
nothing-unpriced = refl

unpriced_on_demand-All_example :
    All (OfferPriced provider fresh (new_pricing-Priced "us-east-1")) (offer ∷ [])
unpriced_on_demand-All_example =
    unpriced_on_demand-All provider fresh (new_pricing-Priced "us-east-1") sort keeps
      nothing-unpriced

-- What the fresh provider describes.
abbrev offered : List Instance
offered = slot provider CapacityType.on_demand offer 0 fresh ∷ []

described-offered : describe provider order fresh ≡ ok offered
unfolding describe described classify place owned_slot speculative_slots first_slots capacity_type
    lower_is fake_client new_fake get remove
described-offered = refl

accepted : check_offerings provider.offerings ≡ ok tt
unfolding check_offerings capacity_type lower_is String-discrete
accepted = refl

fresh-Serving : Serving provider fresh
fresh-Serving = record {
  accepted = accepted;
  priced = new_pricing-Priced "us-east-1";
  clamped = unfold get in λ mid p g. cc;
  reported = λ managed h. subst (All Reported) (same managed h) tt;
}
  where
    same :
        (managed : List Ec2Instance)
        → provider.ec2.describe_managed fresh.ec2 ≡ ok managed
        → [] ≡ managed
    same managed h = (unfold fake_client new_fake in cc)

new-Seeded_example :
    Seeded (new (aws_config provider order (λ m e h. h) options mem_store) [] fresh empty_snapshot)
new-Seeded_example =
    new-Seeded provider order (λ m e h. h) options mem_store [] fresh empty_snapshot empty_snapshot
      offered fresh-Serving loaded is-fresh described-offered (tt, tt)
