-- ===== src/System.antt =====
-- The outside world of src/package_installer.rs, src/composepost.rs and src/initramfs.rs: the calls
-- that the program makes of the system, and how it sequences them.
pub mod Calls
pub mod Actions
pub mod Ending
pub mod Making
