-- ===== src/Layer.antt =====
-- src/layer: file type detection, copy-on-write storage of contents, layers and their union.
pub mod Lines
pub mod Detection
pub mod Cow
pub mod Manager
pub mod UnionView
pub mod Hooks
