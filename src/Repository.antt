-- ===== src/Repository.antt =====
-- src/package_manager/alpm_integration.rs: reading the sync databases into the pool.
pub mod Alpm
pub mod Convert
pub mod Pools
pub mod Lookup
pub mod Download
pub mod Filled
pub mod Constraints
pub mod Expanded
pub mod Open
