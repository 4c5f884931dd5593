-- ===== src/Kit/Errors.antt =====
-- providerkit/errors.go, and `mapErr` of providerkit/server.go: the errors of the kit. An error is
-- kept by its sentinel and the values that its message shows; the text is not modelled.
use bigfleet_providers.Prelude.{String}
use bigfleet_providers.Prelude.Float.{Float}
use bigfleet_providers.Kit.Lifecycle.{State, Kind}
use bigfleet_providers.Kit.Fence.{Fence, FenceMark}

-- What `Instance.validate` and the seeding find wrong with a record; the text is its id.
pub data Defect : Type 0 where
  empty_id : Defect
  no_instance_type : String → Defect
  no_capacity_type : String → Defect
  no_zone : String → Defect
  bad_price : String → Float → Defect
  bad_probability : String → Float → Defect
  spot_without_probability : String → Defect
  speculative_with_host : String → Defect
  idle_without_host : String → Defect
  not_resting : String → State → Defect
  duplicate_id : String → Defect

pub data Error : Type 0 where
  not_found : String → Error
  fenced : Fence → String → FenceMark → Error
  invalid_transition : Kind → State → Error
  invalid_machine : Defect → Error
  -- The errors that wrap no sentinel.
  interrupted : String → Error
  timed_out : Kind → Error
  no_host : Error
  describe_failed : Error → Error
  load_failed : Error → Error
  -- What a backend or a store returns.
  other : String → Error
  node_readiness : Error → Error

-- The codes of google.golang.org/grpc/codes that the kit answers with.
pub data Code : Type 0 where
  invalid_argument not_found failed_precondition unimplemented internal : Code

pub record Status : Type 0 where
  pub code : Code
  pub cause : Error

-- `mapErr`. `errors.Is` sees the sentinel that an error wraps.
unfoldable pub map_err : Error → Status
map_err (Error.not_found id) = record { code = Code.not_found; cause = Error.not_found id }
map_err (Error.fenced f id m) = record {
  code = Code.failed_precondition;
  cause = Error.fenced f id m;
}
map_err e = record { code = Code.internal; cause = e }
