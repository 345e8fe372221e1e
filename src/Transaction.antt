-- ===== src/Transaction.antt =====
-- Downloading and unpacking what a plan lists, in src/package_installer.rs.
pub mod Archive
pub mod Unpack
pub mod Prepare
pub mod Merged
pub mod Resolved
pub mod Scripted
pub mod Hooked
pub mod Extracted
pub mod Unpacked
pub mod Fetched
