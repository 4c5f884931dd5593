-- ===== src/Kit.antt =====
-- providerkit, the library that every provider is built on.
pub mod Lifecycle
pub mod Fence
pub mod Errors
pub mod Machine
pub mod Instance
pub mod Wire
pub mod Store
pub mod FileStore
pub mod Server
pub mod Operation
pub mod Dispatch
pub mod Messages
pub mod Rpc
pub mod Reconcile
pub mod Startup
pub mod Sound
pub mod System
