-- ===== src/LocalDb.antt =====
-- The local package database of src/package_installer.rs: reading .PKGINFO, writing the `desc` and
-- `files` of a package, and loading the database back.
pub mod PkgInfo
pub mod Write
pub mod Load
pub mod Reread
pub mod Written
pub mod Numbers
