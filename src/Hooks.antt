-- ===== src/Hooks.antt =====
-- src/package_manager/pacman_hooks.rs: pacman's hook files, and which hooks a transaction triggers.
pub mod Types
pub mod Parse
pub mod Load
pub mod Match
pub mod Matching
pub mod Loading
