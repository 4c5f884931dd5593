-- ===== src/Aws/Backend/Distinct.antt =====
-- No two slots have the same id, where no two offerings have the same shape.
use bigfleet_providers.Prelude.{
  ℕ, zero, suc, ◌≤◌, ◌<◌, ℤ, pos, negsuc, max_int64, List, [], ◌∷◌, ◌++◌, All, All-append, ◌≢◌,
  arith,
}
use bigfleet_providers.Kit.Lifecycle.{CapacityType}
use bigfleet_providers.Kit.Instance.{Instance}
use bigfleet_providers.Kit.Startup.Seeding.{NoTwins}
use bigfleet_providers.Aws.Offering.{Offering, capacity_type}
use bigfleet_providers.Aws.Backend.{
  AwsBackend, AwsState, capacity_or_zero, slot_id, slot, first_slots, counted_slots, slots_of,
  speculative_slots,
}
use bigfleet_providers.Aws.Backend.Ids.{AtMostMax, Plain, SameShape, slot_id_parts, slot_id_apart}

NoTwins-append :
    (is js : List Instance)
    → NoTwins is
    → NoTwins js
    → All (λ i. All (λ j. i.id ≢ j.id) js) is
    → NoTwins (is ++ js)
NoTwins-append [] js h k a = k
NoTwins-append (i ∷ is) js h k a =
    (All-append (λ j. i.id ≢ j.id) is js h.0 a.0, NoTwins-append is js h.1 k a.1)

abbrev offered_capacity : Offering → CapacityType
offered_capacity off = capacity_or_zero (capacity_type off)

abbrev pub Differs : Offering → Offering → Type 0
Differs o p = ¬ SameShape (offered_capacity o) (offered_capacity p) o p

-- No two offerings have the same shape.
abbrev pub AllDiffer : List Offering → Type 0
AllDiffer [] = Unit
AllDiffer (o ∷ os) = All (Differs o) os × AllDiffer os

-- What holds of each slot of an offering holds of all.
module _ {E : Type 0} (b : AwsBackend E) (s : AwsState E) where
  first_slots-All :
      (P : Instance → Type 0) (n : ℕ) (c : CapacityType) (off : Offering)
      → ((i : ℕ) → i < n → P (slot b c off i s))
      → All P (first_slots b n c off s)
  unfolding first_slots
  first_slots-All P zero c off h = tt
  first_slots-All P (suc n) c off h =
      All-append P (first_slots b n c off s) _
        (first_slots-All P n c off (λ i l. h i (ground arith))) (h n (ground arith), tt)

  first_slots-NoTwins :
      (n : ℕ) (c : CapacityType) (off : Offering)
      → n ≤ max_int64
      → Plain off
      → NoTwins (first_slots b n c off s)
  unfolding first_slots slot
  first_slots-NoTwins zero c off l h = tt
  first_slots-NoTwins (suc n) c off l h =
      NoTwins-append (first_slots b n c off s) _ (first_slots-NoTwins n c off (ground arith) h)
        (tt, tt)
        (first_slots-All (λ i. All (λ j. i.id ≢ j.id) (slot b c off n s ∷ [])) n c off
          (λ i m. (slot_id_apart b.provider_name c off i n m (ground arith) h, tt)))

  counted_slots-All :
      (P : Instance → Type 0) (k : ℤ) (c : CapacityType) (off : Offering)
      → ((i : ℕ) → P (slot b c off i s))
      → All P (counted_slots b k c off s)
  unfolding counted_slots
  counted_slots-All P (pos n) c off h = first_slots-All P n c off (λ i l. h i)
  counted_slots-All P (negsuc n) c off h = tt

  counted_slots-NoTwins :
      (k : ℤ) (c : CapacityType) (off : Offering)
      → AtMostMax k
      → Plain off
      → NoTwins (counted_slots b k c off s)
  unfolding counted_slots
  counted_slots-NoTwins (pos n) c off l h = first_slots-NoTwins n c off l h
  counted_slots-NoTwins (negsuc n) c off l h = tt

  -- Slots of offerings of different shapes have different ids.
  slots_of_apart :
      (off : Offering) (i : ℕ) (offs : List Offering)
      → Plain off
      → All Plain offs
      → All (Differs off) offs
      → All (λ j. (slot b (offered_capacity off) off i s).id ≢ j.id) (slots_of b offs s)
  unfolding slots_of slot
  slots_of_apart off i [] h k a = tt
  slots_of_apart off i (p ∷ ps) h k a =
      All-append (λ j. slot_id b.provider_name (offered_capacity off) off (pos i) ≢ j.id)
        (counted_slots b p.count (offered_capacity p) p s) _
        (counted_slots-All (λ j. slot_id b.provider_name (offered_capacity off) off (pos i) ≢ j.id)
          p.count (offered_capacity p) p
          (λ j e.
            a.0
              (slot_id_parts b.provider_name (offered_capacity off) (offered_capacity p) off p
                (pos i) (pos j) h k.0 e).0))
        (slots_of_apart off i ps h k.1 a.1)

  slots_of-NoTwins :
      (offs : List Offering) → All Plain offs → AllDiffer offs → NoTwins (slots_of b offs s)
  unfolding slots_of
  slots_of-NoTwins [] h a = tt
  slots_of-NoTwins (off ∷ offs) h a =
      NoTwins-append (counted_slots b off.count (offered_capacity off) off s) _
        (counted_slots-NoTwins off.count (offered_capacity off) off (h.0.count) h.0)
        (slots_of-NoTwins offs h.1 a.1)
        (counted_slots-All (λ i. All (λ j. i.id ≢ j.id) (slots_of b offs s)) off.count
          (offered_capacity off) off (λ i. slots_of_apart off i offs h.0 h.1 a.0))

  -- If no two offerings have the same capacity type, instance type and zone, the types and zones
  -- have no slash, and the counts are in the range of an int64, then no two slots have the same id.
  pub speculative_slots-NoTwins :
      All Plain b.offerings → AllDiffer b.offerings → NoTwins (speculative_slots b s)
  unfolding speculative_slots
  speculative_slots-NoTwins h a = slots_of-NoTwins b.offerings h a
