-- ===== src/Wasi.antt =====
-- src/wasi: the errors and their errno values, the file descriptor table, and the adapter.
pub mod Error
pub mod FdTable
pub mod Adapter
