-- ===== src/Aws/InstanceTypes.antt =====
-- providers/aws/instancetypes.go: the hardware capacity of an instance type.
pub mod Resolved
use bigfleet_providers.Prelude.{
  ℕ, zero, suc, ◌+◌, ◌*◌, ◌/◌, ◌%◌, ℤ, pos, negsuc, String, String-discrete, Bool, true, false,
  Option, none, some, List, [], ◌∷◌, length, get, insert, Result, ok, err, ite, if◌then◌else◌, ◌==◌,
}
use Prim.Native.String.{◌++◌}
use bigfleet_providers.Prelude.Decimal.{format_int}
use bigfleet_providers.Kit.Errors.{Error}
use bigfleet_providers.Kit.Machine.{StringMap}
use bigfleet_providers.Kit.Server.{string_key}
use bigfleet_providers.Aws.Ec2.{Ec2Client, InstanceCapacity}

-- `c.MemMiB % 1024 == 0`; Go's remainder of a negative number is 0 when the number divides.
abbrev whole_gib : ℤ → Bool
whole_gib (pos n) = n % 1024 == 0
whole_gib (negsuc n) = suc n % 1024 == 0

-- `c.MemMiB / 1024`, of a multiple.
abbrev in_gib : ℤ → ℤ
in_gib (pos n) = pos (n / 1024)
in_gib (negsuc n) = negative (suc n / 1024)
  where
    negative : ℕ → ℤ
    negative zero = pos 0
    negative (suc k) = negsuc k

memory_text : ℤ → String
memory_text m = if whole_gib m then format_int (in_gib m) ++ "Gi" else format_int m ++ "Mi"

-- `instanceCapacity.allocatable`.
unfoldable pub capacity_map : InstanceCapacity → StringMap
unfolding memory_text
capacity_map c = some (("cpu", format_int c.vcpu) ∷ ("memory", memory_text c.mem_mib) ∷ [])

-- A type of the table: its vCPUs, and its memory in GiB (`gib`).
abbrev capacity_of : ℕ → ℕ → InstanceCapacity
capacity_of vcpu mem = record { vcpu = pos vcpu; mem_mib = pos (mem * 1024) }

unfoldable pub instance_type_table : List (String × InstanceCapacity)
instance_type_table =
    ("m6i.large", capacity_of 2 8)
    ∷ ("m6i.xlarge", capacity_of 4 16)
    ∷ ("m6i.2xlarge", capacity_of 8 32)
    ∷ ("m6i.4xlarge", capacity_of 16 64)
    ∷ ("m6i.8xlarge", capacity_of 32 128)
    ∷ ("m7g.large", capacity_of 2 8)
    ∷ ("m7g.xlarge", capacity_of 4 16)
    ∷ ("m7g.2xlarge", capacity_of 8 32)
    ∷ ("m7g.4xlarge", capacity_of 16 64)
    ∷ ("c6i.large", capacity_of 2 4)
    ∷ ("c6i.xlarge", capacity_of 4 8)
    ∷ ("c6i.2xlarge", capacity_of 8 16)
    ∷ ("c6i.4xlarge", capacity_of 16 32)
    ∷ ("c7g.large", capacity_of 2 4)
    ∷ ("c7g.xlarge", capacity_of 4 8)
    ∷ ("c7g.2xlarge", capacity_of 8 16)
    ∷ ("c7g.4xlarge", capacity_of 16 32)
    ∷ ("r6i.large", capacity_of 2 16)
    ∷ ("r6i.xlarge", capacity_of 4 32)
    ∷ ("r6i.2xlarge", capacity_of 8 64)
    ∷ ("r6i.4xlarge", capacity_of 16 128)
    ∷ ("g5.xlarge", capacity_of 4 16)
    ∷ ("g5.2xlarge", capacity_of 8 32)
    ∷ ("g5.4xlarge", capacity_of 16 64)
    ∷ ("g5.12xlarge", capacity_of 48 192)
    ∷ []

-- `instanceTypeResolver`: its cache.
abbrev pub Cache : Type 0
Cache = List (String × InstanceCapacity)

-- The loops that write the entries of one map into another.
unfoldable pub overlay_capacities : List (String × InstanceCapacity) → Cache → Cache
overlay_capacities [] cache = cache
overlay_capacities ((t, c) ∷ caps) cache = overlay_capacities caps (insert t c cache)

-- `newInstanceTypeResolver`.
unfoldable pub new_cache : Cache
new_cache = overlay_capacities instance_type_table []

unfoldable pub found_map : Option InstanceCapacity → StringMap
found_map none = none
found_map (some c) = capacity_map c

-- `allocatable`.
unfoldable pub allocatable : String → Cache → StringMap
unfolding found_map
allocatable instance_type cache = found_map (get instance_type cache)

abbrev pub listed : String → List String → Bool
listed s [] = false
listed s (t ∷ ts) = ite (String-discrete t s) true (listed s ts)

unfoldable pub skips : String → List String → Bool
skips s seen = ite (String-discrete s "") true (listed s seen)

-- The loop of `dedupeNonEmpty`; `seen` are the texts that it has.
unfoldable pub distinct_from : List String → List String → List String
unfolding skips
distinct_from seen [] = []
distinct_from seen (s ∷ rest) = elim (skips s seen) [
  | true ↦ distinct_from seen rest
  | false ↦ s ∷ distinct_from (s ∷ seen) rest
]

unfoldable pub missing : List String → List (String × InstanceCapacity) → ℕ
missing [] caps = 0
missing (t ∷ want) caps = elim (get t caps) [ none ↦ 1 | some c ↦ 0 ] + missing want caps

unfoldable pub resolved :
    List String → Result Error (List (String × InstanceCapacity)) → Cache → Cache × ℕ
unfolding missing
resolved want (err e) cache = (cache, length want)
resolved want (ok caps) cache = (overlay_capacities caps cache, missing want caps)

-- `sort` stands for `sort.Strings`.
module _ (sort : List String → List String) where
  -- `dedupeNonEmpty`.
  unfoldable pub dedupe_non_empty : List String → List String
  dedupe_non_empty ts = sort (distinct_from [] ts)

  -- `resolve`: the cache, and the number of types that could not be resolved.
  unfoldable pub resolve : {E : Type 0} → Ec2Client E → List String → E → Cache → Cache × ℕ
  unfolding resolved
  resolve client types e cache =
      let want = dedupe_non_empty types in
      if length want == 0
      then (cache, 0)
      else resolved want (client.describe_instance_capacities want e) cache
