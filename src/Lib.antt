-- ===== src/Lib.antt =====
-- The provider kit of the repository, the AWS provider over its client interface, and a part of the
-- Latitude provider.
--
-- providerkit is the library that every provider embeds: a server of six calls (Create, Configure,
-- Drain, Delete, Get, List) over an inventory of machines, a backend that works on the substrate,
-- and a store that survives a restart. A mutating call is fenced by a token, answered at once, and
-- carried out in the background against a timeout.
--
--   Kit/Lifecycle, Kit/Machine     providerkit/machine.go: State, CapacityType, kind, Machine
--   Kit/Fence, Kit/Errors          providerkit/fence.go, providerkit/errors.go, mapErr
--   Kit/Instance                   providerkit/backend.go: Instance.validate, the Backend interface
--   Kit/Wire, Kit/Messages         providerkit/convert.go and the generated messages that it uses
--   Kit/Store, Kit/FileStore       providerkit/store.go, providerkit/filestore.go
--   Kit/Server                     providerkit/server.go: the fields under the lock, options, fence
--                                  check, snapshot and persistence
--   Kit/Operation, Kit/Dispatch    the closures of the handlers, dispatch and runTransition
--   Kit/Rpc                        the six calls
--   Kit/Reconcile, Kit/Startup     Reconcile; New, seedFromBackend, recoverInterrupted
--   Kit/Sound                      what holds of every record of the inventory
--   Kit/System                     the process: calls, completions, timeouts, reconciliations and
--                                  restarts as steps; its children are on the invariant, the
--                                  shape of the records, the edges of the lifecycle, the owners of
--                                  transitions, the way to rest and the marks
--   Latitude/Index                 providers/latitude/substratestate.go: substrateIndex
--   Aws/Ec2                        providers/aws/ec2.go, and the capacity tag of backend.go
--   Aws/Fake                       providers/aws/ec2fake.go
--   Aws/Offering                   providers/aws/offering.go
--   Aws/InstanceTypes              providers/aws/instancetypes.go
--   Aws/Pricing                    providers/aws/pricing.go
--   Aws/Backend, Aws/Actuation     providers/aws/backend.go: the inventory; the calls and refreshes
--   Aws/Interruption               providers/aws/interruption.go, with the events of
--                                  providers/aws/interruption_poller.go and machineIDFor of
--                                  providers/aws/backend.go
--   Prelude                        lists, maps, results, int64 and its decimal text, float64
--   Tests                          runs on concrete inputs
--
-- A function of the source is a function here of the same words in snake case; what it changes is
-- passed through. Each call runs under the lock of the server, so one call is one step. The order
-- in which the runtime goes through a map is an argument or any order. Backends and stores are
-- parameters with their state; the file store is modelled over a disk whose system calls may fail,
-- and the JSON codec is a parameter that decodes what it encodes. The client of EC2 is a parameter
-- with the state of its region. Two functions run on fuel: the printing of a number, which is given
-- the number itself, and the count of the binary digits of a product, which is given 4200, more
-- than the product of two finite float64 values has.
--
-- A float64 is NaN, an infinity, or a whole number of units of 2 ^ -1074. An int64 counter wraps
-- around at 2 ^ 63 as in the source. `sort.Strings` is a parameter. The text of an error, the
-- log, contexts, the gRPC transport and the metrics are not modelled: last_error is the error
-- itself, whose text is taken not to be empty. Nor are the other providers, the client of the
-- vendor SDK (ec2real.go) and the conformance suite.
--
-- `Reconcile` takes the probability of a later report but not its capacity type, so that the
-- probability of a SPOT machine stays above 0 only under a backend that keeps to one capacity type
-- for a machine; where this is needed it is a hypothesis (`Constant`, `AsExpected`). A store that
-- fails to save is only logged by the code; the theorems on a store in step are about one that
-- keeps what it is given (`Durable`).
pub mod Prelude
pub mod Kit
pub mod Latitude
pub mod Aws
pub mod Tests
