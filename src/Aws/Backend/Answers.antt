-- ===== src/Aws/Backend/Answers.antt =====
-- `Describe` answers with instances in shape, so that a fresh store can be seeded from it.
use bigfleet_providers.Prelude.{
  String, Bool, true, false, Option, none, some, List, [], ◌∷◌, map, All, All-append, All-of_Mem,
  All-Mem, get, remove, Result, ok, err, ◌≡◌, ◌≢◌, refl, arith,
}
use mathlib.Core.List.{Memᴰ}
use bigfleet_providers.Kit.Errors.{Error}
use bigfleet_providers.Kit.Lifecycle.{CapacityType}
use bigfleet_providers.Kit.Machine.{host_empty}
use bigfleet_providers.Kit.Instance.{Instance, effective_state}
use bigfleet_providers.Kit.Instance.Shape.{InShape}
use bigfleet_providers.Kit.Server.{string_key}
use bigfleet_providers.Aws.Ec2.{Ec2Instance, parse_capacity_tag}
use bigfleet_providers.Aws.Interruption.Safety.{Clamped}
use bigfleet_providers.Aws.Pricing.Priced.{Priced, price-PriceFits}
use bigfleet_providers.Aws.Backend.{
  AwsBackend, AwsState, check_offerings, slots_of, speculative_slots, capacity_of, instance_to_idle,
  owned_slot, place, classify, described, describe,
}
use bigfleet_providers.Aws.Backend.Shape.{
  published-RiskFits, slots_of-InShape, check_offerings-Accepted,
}
use bigfleet_providers.Aws.Backend.Described.{
  Reported, Owner, remove-Owner, get-Owner, classify-Classified,
}

module _ {E : Type 0} (b : AwsBackend E) (s : AwsState E) (priced : Priced s.pricing)
    (clamped : Clamped s.interruption) where
  capacity_of-given :
      (c : CapacityType) (spot : Bool) → capacity_of b c spot ≢ CapacityType.unspecified
  unfolding capacity_of
  capacity_of-given CapacityType.unspecified true e = cc
  capacity_of-given CapacityType.unspecified false e = cc
  capacity_of-given CapacityType.bare_metal spot e = cc
  capacity_of-given CapacityType.reserved spot e = cc
  capacity_of-given CapacityType.on_demand spot e = cc
  capacity_of-given CapacityType.spot spot e = cc

  host_full :
      (name ref : String) → ref ≢ "" → host_empty (record { provider = name; ref = ref }) ≡ false
  unfolding host_empty
  host_full name ref h = ground (arith, h)

  instance_to_idle-InShape :
      (id : String) (inst : Ec2Instance)
      → id ≢ ""
      → Reported inst
      → InShape true (instance_to_idle b id inst s)
  unfolding instance_to_idle effective_state
  instance_to_idle-InShape id inst full r =
      let c = capacity_of b (parse_capacity_tag inst.capacity) inst.spot in
      let risk = published-RiskFits id inst.instance_type c s.interruption clamped in
      record {
        id = full;
        instance_type = r.instance_type;
        capacity_type = capacity_of-given (parse_capacity_tag inst.capacity) inst.spot;
        zone = λ e. r.zone;
        price = price-PriceFits inst.instance_type inst.zone c s.pricing priced;
        probability = risk.0;
        spot = risk.1;
        rest = host_full b.provider_name inst.instance_id r.instance_id;
      }

  owned_slot-InShape :
      (o : Option Ec2Instance) (i : Instance)
      → ((inst : Ec2Instance) → o ≡ some inst → Reported inst)
      → InShape true i
      → InShape true (owned_slot b o i)
  unfolding owned_slot effective_state
  owned_slot-InShape none i r h = h
  owned_slot-InShape (some inst) i r h = record {
    id = h.id;
    instance_type = h.instance_type;
    capacity_type = h.capacity_type;
    zone = h.zone;
    price = h.price;
    probability = h.probability;
    spot = h.spot;
    rest = host_full b.provider_name inst.instance_id (r inst refl).instance_id;
  }

  place-InShape :
      (slots : List Instance) (by_slot : List (String × Ec2Instance))
      → All (InShape true) slots
      → All Owner by_slot
      → All (InShape true) (place b slots by_slot).0 × All Owner (place b slots by_slot).1
  unfolding place
  place-InShape [] by_slot h o = (tt, o)
  place-InShape (i ∷ slots) by_slot h o =
      let (out, left) =
        place-InShape slots (remove i.id by_slot) h.1 (remove-Owner i.id by_slot o) in
      (
        (
          owned_slot-InShape (get i.id by_slot) i (λ inst g. get-Owner i.id inst by_slot o g) h.0,
          out,
        ),
        left,
      )

  owners-InShape :
      (m : List (String × Ec2Instance))
      → All Owner m
      → All (InShape true) (map (λ e. instance_to_idle b e.0 e.1 s) m)
  owners-InShape [] h = tt
  owners-InShape (e ∷ m) h = (instance_to_idle-InShape e.0 e.1 h.0.0 h.0.1, owners-InShape m h.1)

  orphans-InShape :
      (orphans : List Ec2Instance)
      → All Reported orphans
      → All (InShape true) (map (λ inst. instance_to_idle b inst.instance_id inst s) orphans)
  orphans-InShape [] h = tt
  orphans-InShape (inst ∷ orphans) h = (
    instance_to_idle-InShape inst.instance_id inst h.0.instance_id h.0,
    orphans-InShape orphans h.1,
  )

  -- Of a provider with offerings that it accepts, prices in order and observed interruptions of at
  -- most 1, if EC2 names the id, the type and the zone of each instance: whatever `Describe`
  -- answers is in the shape that the kit asks for.
  pub describe-InShape :
      (order : List (String × Ec2Instance) → List (String × Ec2Instance))
      → ((m : List (String × Ec2Instance)) (e : String × Ec2Instance) → Memᴰ e (order m) → Memᴰ e m)
      → check_offerings b.offerings ≡ ok tt
      → ((managed : List Ec2Instance)
          → b.ec2.describe_managed s.ec2 ≡ ok managed
          → All Reported managed)
      → (is : List Instance) → describe b order s ≡ ok is
      → All (InShape true) is
  unfolding describe speculative_slots
  describe-InShape order visits accepted reported is h =
      answered (b.ec2.describe_managed s.ec2) reported h
    where
      same : (xs ys : List Instance) → Path (Result Error (List Instance)) (ok xs) (ok ys) → xs ≡ ys
      same xs ys e = cc

      ordered : (m : List (String × Ec2Instance)) → All Owner m → All Owner (order m)
      ordered m k = All-of_Mem Owner (order m) (λ e i. All-Mem Owner m e k (visits m e i))

      answered :
          (r : Result Error (List Ec2Instance))
          → ((managed : List Ec2Instance) → r ≡ ok managed → All Reported managed)
          → described b order r s ≡ ok is
          → All (InShape true) is
      answered (err e) k q = absurd (clash e q)
        where
          clash : (e : Error) → Path (Result Error (List Instance)) (err e) (ok is) → ⊥
          clash e q = cc
      answered (ok managed) k q =
          let sorted = classify-Classified managed [] (k managed refl) tt in
          let placed =
            place-InShape (slots_of b b.offerings s) (classify managed []).0
              (slots_of-InShape b s priced clamped b.offerings
                (check_offerings-Accepted b.offerings accepted))
              sorted.0 in
          rw (← same _ is q) (
            All-append (InShape true) _ _ placed.0 (
              All-append (InShape true) _ _ (owners-InShape _ (ordered _ placed.1))
                (orphans-InShape _ sorted.1)))
