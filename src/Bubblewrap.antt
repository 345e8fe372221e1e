-- ===== src/Bubblewrap.antt =====
-- src/bubblewrap.rs: the argument vector of a `bwrap` sandbox and its single run.
pub mod Argv
pub mod Run
pub mod Running
