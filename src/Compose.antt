-- ===== src/Compose.antt =====
-- src/compose.rs: the configuration of an image, and its include files.
pub mod Config
pub mod Including
pub mod Merging
pub mod Image
pub mod Committed
pub mod Composed
