-- ===== src/Pool/Wf.antt =====
-- The well-formedness of the pool of src/package_solver/pool.rs: its tables agree with each other.
pub mod Own
pub mod Provide
pub mod Graph
pub mod Align
pub mod Invariant
pub mod Conflicts
pub mod Add
pub mod Many
pub mod Finalize
pub mod Interning
pub mod Merge
pub mod Growing
pub mod Reached
