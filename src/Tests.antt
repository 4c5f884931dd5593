-- ===== src/Tests.antt =====
-- Runs of the code on concrete inputs.
pub mod Fixture
mod Calls
mod Life
mod Contract
mod Aws
mod Slots
mod Process
mod Providers
