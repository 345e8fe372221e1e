-- ===== src/Tests.antt =====
-- The properties at concrete packages, pools and configurations.
mod Values
mod Pools
mod Solving
mod Data
mod Hosts
mod Layers
mod World
mod Worlds
mod Trees
mod Commits
