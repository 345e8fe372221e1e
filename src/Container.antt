-- ===== src/Container.antt =====
-- src/container.rs: which layer of the image each object of the commit goes into.
pub mod Sets
pub mod Meta
pub mod Mapped
pub mod Scan
pub mod Scanned
pub mod Fill
pub mod Listed
pub mod Owned
pub mod Placed
pub mod Named
