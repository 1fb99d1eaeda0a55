-- ===== src/Csi.antt =====
-- src/csi: volumes of the container storage interface as tenants.
pub mod TenantMapping
pub mod Snapshots
pub mod Controller
