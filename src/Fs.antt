-- ===== src/Fs.antt =====
-- src/fs: the file system of one tenant.
pub mod Operations
