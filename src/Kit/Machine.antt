-- ===== src/Kit/Machine.antt =====
-- providerkit/machine.go: the record of a machine, and its deep copy.
use bigfleet_providers.Prelude.{
  String, String-discrete, Bool, true, Option, none, some, List, [], ◌∷◌, ◌&&◌, ◌≡◌, refl, ap,
}
use bigfleet_providers.Prelude.Float.{Float}
use bigfleet_providers.Kit.Lifecycle.{State, CapacityType}
use bigfleet_providers.Kit.Fence.{is_empty}
use bigfleet_providers.Kit.Errors.{Error}

-- Go's map[string]string, with its nil.
abbrev pub StringMap : Type 0
StringMap = Option (List (String × String))

pub record HostRef : Type 0 where
  pub provider : String
  pub ref : String

-- The zero value of a HostRef.
abbrev pub no_host_ref : HostRef
no_host_ref = record { provider = ""; ref = "" }

-- `HostRef.empty`.
unfoldable pub host_empty : HostRef → Bool
host_empty h = is_empty h.provider && is_empty h.ref

-- `last_error` is none where the text is empty.
pub record Machine : Type 0 where
  pub id : String
  pub state : State
  pub host : HostRef
  pub instance_type : String
  pub zone : String
  pub capacity_type : CapacityType
  pub price_per_hour : Float
  pub interruption_probability : Float
  pub resources : StringMap
  pub allocatable : StringMap
  pub labels : StringMap
  pub cluster : String
  pub shard_metadata : StringMap
  pub last_error : Option Error

-- The loop of `cloneMap`: the entries of the map, one by one.
copy_entries : List (String × String) → List (String × String)
copy_entries [] = []
copy_entries ((k, v) ∷ m) = (k, v) ∷ copy_entries m

-- `cloneMap`.
unfoldable pub clone_map : StringMap → StringMap
unfolding copy_entries
clone_map none = none
clone_map (some m) = some (copy_entries m)

-- `Machine.clone`.
unfoldable pub clone : Machine → Machine
clone m = record m {
  resources = clone_map m.resources;
  allocatable = clone_map m.allocatable;
  labels = clone_map m.labels;
  shard_metadata = clone_map m.shard_metadata;
}

copy_entries_lem : (m : List (String × String)) → copy_entries m ≡ m
unfolding copy_entries
copy_entries_lem [] = refl
copy_entries_lem (e ∷ m) = ap (◌∷◌ e) (copy_entries_lem m)

-- A copy holds what the map holds, and a nil map stays nil.
pub clone_map_lem : (m : StringMap) → clone_map m ≡ m
unfolding clone_map
clone_map_lem none = refl
clone_map_lem (some m) = ap some (copy_entries_lem m)

pub clone_lem : (m : Machine) → clone m ≡ m
unfolding clone
clone_lem m = simp clone_map_lem

-- The zero value is empty.
pub no_host_ref-empty : host_empty no_host_ref ≡ true
unfolding host_empty String-discrete
no_host_ref-empty = refl
