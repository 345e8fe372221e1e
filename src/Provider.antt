-- ===== src/Provider.antt =====
-- src/package_solver/provider.rs: what the dependency solver asks of the pool.
pub mod Interner
pub mod Validate
pub mod Dependencies
pub mod Conflicting
pub mod Sorting
pub mod Asks
pub mod Requirements
pub mod Rounds
pub mod Known
