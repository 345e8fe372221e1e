-- ===== src/Pool/Laws.antt =====
-- A well-formed pool of src/package_solver/pool.rs, as its clients see it.
pub mod Added
pub mod Names
pub mod Queries
pub mod Answers
pub mod Favored
pub mod Choice
pub mod Filtering
