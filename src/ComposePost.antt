-- ===== src/ComposePost.antt =====
-- What is done in the image after its packages are installed: src/composepost.rs and
-- src/initramfs.rs.
pub mod Post
pub mod Laid
pub mod Posted
