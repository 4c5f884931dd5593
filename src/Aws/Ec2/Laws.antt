-- ===== src/Aws/Ec2/Laws.antt =====
-- What the comments of `ec2Client` in providers/aws/ec2.go promise to the backend, for the states of
-- a region that are `Valid`.
use bigfleet_providers.Prelude.{ℕ, ℤ, String, true, List, ok, ◌≡◌, ◌≢◌, ◌⊎◌}
use mathlib.Core.List.{Memᴰ}
use bigfleet_providers.Aws.Ec2.{RunSpec, Ec2Instance, Ec2Client}

-- The region describes the instance as managed.
abbrev pub Has : {E : Type 0} → Ec2Client E → E → Ec2Instance → Type 0
Has client e inst = (is : List Ec2Instance) × (client.describe_managed e ≡ ok is) × Memᴰ inst is

-- The instance is what was asked for, in a live state and not bound.
pub record LaunchedAs (spec : RunSpec) (inst : Ec2Instance) : Type 0 where
  pub machine_id : inst.machine_id ≡ spec.machine_id
  pub instance_type : inst.instance_type ≡ spec.instance_type
  pub zone : inst.zone ≡ spec.zone
  pub spot : inst.spot ≡ spec.spot
  pub capacity : inst.capacity ≡ spec.capacity
  pub unbound : inst.cluster_id ≡ ""
  pub running : inst.running ≡ true

pub record Ec2Laws {E : Type 0} (client : Ec2Client E) (Valid : E → Type 0) : Type 0 where
  pub run-Valid : (spec : RunSpec) (e : E) → Valid e → Valid (client.run_instance spec e).1
  pub terminate-Valid : (id : String) (e : E) → Valid e → Valid (client.terminate_instance id e).1
  pub bootstrap-Valid :
      (id cluster : String) (blob : List ℕ) (e : E)
      → Valid e
      → Valid (client.apply_bootstrap id cluster blob e).1
  pub drain-Valid :
      (id : String) (grace : ℤ) (e : E) → Valid e → Valid (client.drain_node id grace e).1
  -- A launch yields a managed instance: a new one of the shape that was asked for, or, with a token
  -- that was used, an old one.
  pub launches :
      (spec : RunSpec) (e : E) (inst : Ec2Instance)
      → Valid e
      → (client.run_instance spec e).0 ≡ ok inst
      → Has client (client.run_instance spec e).1 inst
        × (LaunchedAs spec inst ⊎ ((spec.idempotency_token ≢ "") × Has client e inst))
  -- A launch that is repeated with its token yields the same instance and no other. The comments say
  -- this of a retry; the simulator, and this law, go by the token alone.
  pub repeats :
      (spec again : RunSpec) (e : E) (inst : Ec2Instance)
      → Valid e
      → spec.idempotency_token ≢ ""
      → again.idempotency_token ≡ spec.idempotency_token
      → (client.run_instance spec e).0 ≡ ok inst
      → client.run_instance again (client.run_instance spec e).1
        ≡ (ok inst, (client.run_instance spec e).1)
  -- A termination that works leaves no instance of the id, and the others.
  pub terminates :
      (id : String) (e : E)
      → Valid e
      → (client.terminate_instance id e).0 ≡ ok tt
      → (inst : Ec2Instance) → Has client (client.terminate_instance id e).1 inst
      → (inst.instance_id ≢ id) × Has client e inst
  pub spares :
      (id : String) (e : E) (inst : Ec2Instance)
      → Valid e
      → inst.instance_id ≢ id
      → Has client e inst
      → Has client (client.terminate_instance id e).1 inst
  -- Bootstrap and drain set and clear the cluster of the instance.
  pub binds :
      (id cluster : String) (blob : List ℕ) (e : E) (inst : Ec2Instance)
      → Valid e
      → inst.instance_id ≡ id
      → Has client e inst
      → Has client
          (client.apply_bootstrap id cluster blob e).1
          (record inst { cluster_id = cluster })
  pub unbinds :
      (id : String) (grace : ℤ) (e : E) (inst : Ec2Instance)
      → Valid e
      → inst.instance_id ≡ id
      → Has client e inst
      → Has client (client.drain_node id grace e).1 (record inst { cluster_id = "" })
