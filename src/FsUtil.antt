-- ===== src/FsUtil.antt =====
-- Resolving paths in an OSTree file system: src/fsutil.rs.
pub mod Path
pub mod Resolve
pub mod Resolving
pub mod Enough
pub mod Looping
pub mod Plain
pub mod Dots
