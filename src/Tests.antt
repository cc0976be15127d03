-- ===== src/Tests.antt =====
-- Concrete inputs on which the theorems are applied: a server that answers as scripted, a volume and
-- the requests about it.
pub mod Fixtures
mod Operations
pub mod Claims
mod Cluster
mod Deleting
mod Ending
pub mod Directories
mod Scripts
mod Plugins
mod Loops
