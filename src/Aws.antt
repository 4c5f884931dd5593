-- ===== src/Aws.antt =====
-- The AWS provider.
pub mod Interruption
pub mod Ec2
pub mod InstanceTypes
pub mod Pricing
pub mod Offering
pub mod Fake
pub mod Backend
pub mod Actuation
