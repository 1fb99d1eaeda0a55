-- ===== src/Composition.antt =====
-- src/composition: the mounts of a tenant's file system.
pub mod Resolver
pub mod Publisher
pub mod LayerChain
