-- ===== src/Storage.antt =====
-- src/storage: the tables of the database and the statements that the program runs on them.
pub mod Models
pub mod Inodes
pub mod Blocks
pub mod Texts
pub mod Tenants
pub mod Layers
pub mod MountEntries
pub mod PublishedMounts
pub mod Sample
