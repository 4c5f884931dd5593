-- ===== src/Aws/Interruption.antt =====
-- providers/aws/interruption.go, and the events of providers/aws/interruption_poller.go: the
-- interruption probability of a SPOT machine. An event is the JSON that the queue delivers, parsed;
-- `managed` is what EC2 answers to `DescribeManaged`, as pairs of an instance id and a machine id.
pub mod Safety
use bigfleet_providers.Prelude.{
  ℕ, zero, suc, String, String-discrete, Bool, true, false, Option, none, some, List, [], ◌∷◌,
  Result, ok, err, get, insert, remove, ite, if◌then◌else◌,
}
use bigfleet_providers.Prelude.Float.{Float, zero_float, one_float, dyadic, lt_float, le_float}
use bigfleet_providers.Kit.Errors.{Error}
use bigfleet_providers.Kit.Lifecycle.{CapacityType}
use bigfleet_providers.Kit.Server.{string_key}

-- `interruption`: the probabilities that notices have raised, by machine id.
pub record Interruption : Type 0 where
  pub observed : List (String × Float)

abbrev pub new_interruption : Interruption
new_interruption = record { observed = [] }

-- The elements are the float64 values nearest to 0.025, 0.075, 0.125, 0.175 and 0.30.
unfoldable pub bucket_probability : List Float
bucket_probability =
    dyadic 3602879701896397 57
    ∷ dyadic 5404319552844595 56
    ∷ dyadic 1 3
    ∷ dyadic 3152519739159347 54
    ∷ dyadic 5404319552844595 54
    ∷ []

abbrev pub unknown_spot_bucket : ℕ
unknown_spot_bucket = 2

unfoldable pub advisor_bucket : List (String × ℕ)
advisor_bucket =
    ("m6i.large", 0)
    ∷ ("m6i.xlarge", 0)
    ∷ ("m6i.2xlarge", 1)
    ∷ ("m6i.4xlarge", 1)
    ∷ ("m6i.8xlarge", 2)
    ∷ ("m7g.large", 0)
    ∷ ("m7g.xlarge", 0)
    ∷ ("m7g.2xlarge", 1)
    ∷ ("m7g.4xlarge", 1)
    ∷ ("c6i.large", 1)
    ∷ ("c6i.xlarge", 1)
    ∷ ("c6i.2xlarge", 2)
    ∷ ("c6i.4xlarge", 2)
    ∷ ("c7g.large", 0)
    ∷ ("c7g.xlarge", 1)
    ∷ ("c7g.2xlarge", 1)
    ∷ ("c7g.4xlarge", 2)
    ∷ ("r6i.large", 1)
    ∷ ("r6i.xlarge", 1)
    ∷ ("r6i.2xlarge", 2)
    ∷ ("r6i.4xlarge", 3)
    ∷ ("g5.xlarge", 3)
    ∷ ("g5.2xlarge", 3)
    ∷ ("g5.4xlarge", 4)
    ∷ ("g5.12xlarge", 4)
    ∷ []

-- An index out of range panics: none.
unfoldable pub nth : List Float → ℕ → Option Float
nth [] n = none
nth (x ∷ xs) zero = some x
nth (x ∷ xs) (suc n) = nth xs n

abbrev pub bucket_or_unknown : Option ℕ → ℕ
bucket_or_unknown none = unknown_spot_bucket
bucket_or_unknown (some b) = b

unfoldable pub forecast : String → CapacityType → Option Float
forecast instance_type CapacityType.spot =
    nth bucket_probability (bucket_or_unknown (get instance_type advisor_bucket))
forecast instance_type _ = some zero_float

-- The observed value where it is above the forecast.
abbrev pub raised : Option Float → Float → Float
raised none base = base
raised (some obs) base = if lt_float base obs then obs else base

abbrev pub spot_probability : Option Float → Option Float → Option Float
spot_probability obs none = none
spot_probability obs (some base) = some (raised obs base)

unfoldable pub probability : String → String → CapacityType → Interruption → Option Float
probability machine_id instance_type CapacityType.spot i =
    spot_probability (get machine_id i.observed) (forecast instance_type CapacityType.spot)
probability machine_id instance_type c i = forecast instance_type c

-- The value that `markWarning` keeps.
unfoldable pub clamp : Float → Float
clamp p =
    let p' = if le_float p zero_float then one_float else p in
    if lt_float one_float p' then one_float else p'

unfoldable pub mark_warning : String → Float → Interruption → Interruption
mark_warning machine_id p i = record i { observed = insert machine_id (clamp p) i.observed }

unfoldable pub clear : String → Interruption → Interruption
clear machine_id i = record i { observed = remove machine_id i.observed }

-- `ebEvent`.
pub record Event : Type 0 where
  pub detail_type : String
  pub instance_id : String

unfoldable pub probability_for_event : String → Option Float
probability_for_event t =
    ite (String-discrete t "EC2 Spot Instance Interruption Warning")
      (some (dyadic 4458563631096791 52))
      (ite (String-discrete t "EC2 Instance Rebalance Recommendation") (some (dyadic 1 1)) none)

find_machine : List (String × String) → String → String
find_machine [] id = ""
find_machine (e ∷ managed) id = ite (String-discrete e.0 id) e.1 (find_machine managed id)

-- `machineIDFor`.
unfoldable pub machine_id_for : Result Error (List (String × String)) → String → String
unfolding find_machine
machine_id_for (err e) id = ""
machine_id_for (ok managed) id = find_machine managed id

unfoldable pub warn : Option Float → Bool → Bool → String → Interruption → Interruption
warn none no_instance no_machine mid i = i
warn (some p) no_instance no_machine mid i =
    if no_instance then i else if no_machine then i else mark_warning mid p i

-- `handle`, on an event that parses.
unfoldable pub handle : Result Error (List (String × String)) → Event → Interruption → Interruption
unfolding warn
handle managed ev i =
    let mid = machine_id_for managed ev.instance_id in
    warn (probability_for_event ev.detail_type) (ite (String-discrete ev.instance_id "") true false)
      (ite (String-discrete mid "") true false) mid i
