-- ===== src/Fuse.antt =====
-- src/fuse: the interface that all front ends share, its implementation over the file system and the
-- virtual files, and the adapter that answers the callbacks of the kernel.
pub mod Interface
pub mod InodeMap
pub mod Adapter
pub mod Backend
