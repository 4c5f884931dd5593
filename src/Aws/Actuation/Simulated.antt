-- ===== src/Aws/Actuation/Simulated.antt =====
-- The actuations of the provider that fail over the simulator of EC2.
use bigfleet_providers.Prelude.{arith, String, false, some, ◌≡◌, arith, get}
use bigfleet_providers.Kit.Fence.{is_empty}
use bigfleet_providers.Kit.Server.{string_key}
use bigfleet_providers.Aws.Ec2.{Ec2Instance}
use bigfleet_providers.Aws.Fake.{Fake}

-- The simulator is such a client, if its instances have ids.
abbrev IsNamed : Fake → Type 0
IsNamed f =
    (id : String) (inst : Ec2Instance)
    → get id f.instances ≡ some inst
    → is_empty inst.instance_id ≡ false
