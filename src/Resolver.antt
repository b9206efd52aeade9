-- ===== src/Resolver.antt =====
-- src/parsers/dependency_resolver.py
pub mod Sort
pub mod Paths
pub mod Invariant
pub mod Visit
pub mod Correct
pub mod Order
pub mod Build
pub mod Agree
pub mod Contract
pub mod Samples
