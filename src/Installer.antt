-- ===== src/Installer.antt =====
-- src/package_manager: packages, and the planning of installs and removals.
pub mod Package
pub mod Install
pub mod Uninstall
pub mod Planned
pub mod Plan
pub mod Blocking
pub mod Removal
