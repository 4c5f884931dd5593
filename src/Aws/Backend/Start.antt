-- ===== src/Aws/Backend/Start.antt =====
-- A first start of the kit on the AWS provider, and the actuations that fail.
use bigfleet_providers.Prelude.{String, true, List, All, ok, ◌≡◌}
use mathlib.Core.List.{Memᴰ}
use bigfleet_providers.Kit.Instance.{Instance}
use bigfleet_providers.Kit.Store.{Store, Snapshot}
use bigfleet_providers.Kit.Server.{Config, Options, with_defaults}
use bigfleet_providers.Kit.Startup.{effective, is_fresh, start, new}
use bigfleet_providers.Kit.Startup.Seeding.{NoTwins, Seeded, seed-Seeded}
use bigfleet_providers.Aws.Ec2.{Ec2Instance}
use bigfleet_providers.Aws.Interruption.Safety.{Clamped}
use bigfleet_providers.Aws.Pricing.Priced.{Priced}
use bigfleet_providers.Aws.Backend.{AwsBackend, AwsState, check_offerings, describe}
use bigfleet_providers.Aws.Backend.Described.{Reported}
use bigfleet_providers.Aws.Backend.Answers.{describe-InShape}
use bigfleet_providers.Aws.Actuation.{aws_backend}

-- A provider of a process that serves: offerings that it accepts, prices in order, observed
-- interruptions of at most 1, and EC2 names the id, the type and the zone of each instance.
pub record Serving {E : Type 0} (b : AwsBackend E) (s : AwsState E) : Type 0 where
  pub accepted : check_offerings b.offerings ≡ ok tt
  pub priced : Priced s.pricing
  pub clamped : Clamped s.interruption
  pub reported :
      (managed : List Ec2Instance)
      → b.ec2.describe_managed s.ec2 ≡ ok managed
      → All Reported managed

module _ {E S : Type 0} (b : AwsBackend E)
    (order : List (String × Ec2Instance) → List (String × Ec2Instance))
    (visits : (m : List (String × Ec2Instance)) (e : String × Ec2Instance)
      → Memᴰ e (order m)
      → Memᴰ e m) where
  -- The configuration of a multi-zone provider on AWS.
  abbrev pub aws_config : Options → Store S → Config (AwsState E) S
  aws_config opts store = record {
    opts = record opts { require_zone = true };
    backend = aws_backend b order;
    store = store;
  }

  -- The first start of a provider that serves, on a store that loads as fresh, succeeds if EC2
  -- answers and no two of the instances that `Describe` makes of the answer have the same id.
  pub new-Seeded :
      (opts : Options) (store : Store S) (keys : List String) (s : AwsState E) (x : S)
      (snap : Snapshot) (is : List Instance)
      → Serving b s
      → store.load x ≡ ok snap
      → is_fresh snap ≡ true
      → describe b order s ≡ ok is
      → NoTwins is
      → Seeded (new (aws_config opts store) keys s x)
  unfolding new start aws_backend with_defaults
  new-Seeded opts store keys s x snap is v l f d n =
      rw (l, f)
        ((seed-Seeded (effective (aws_config opts store)) s x).1 (
          is,
          d,
          (describe-InShape b s v.priced v.clamped order visits v.accepted v.reported is d, n),
        ))
