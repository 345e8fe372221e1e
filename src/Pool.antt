-- ===== src/Pool.antt =====
-- src/package_solver/pool.rs: the pool of packages that the dependency solver reads.
pub mod Types
pub mod Version
pub mod Intern
pub mod Names
pub mod Add
pub mod Query
pub mod Candidates
pub mod Wf
pub mod Laws
