-- ===== src/Csi/Snapshots.antt =====
-- src/csi/snapshot.rs: snapshots of volumes, which are layers over the current layer of the tenant.
mod Follows
mod Examples
use tarbox.Base.{ℕ, Bytes, bytes, Bool, true, false, Option, none, some, List, ◌++◌, ok, err}
use tarbox.Path.{FsResult, storage}
use tarbox.Storage.Models.{TenantId, LayerId, Layer, CreateLayerInput, Db, and_then}
use tarbox.Storage.Layers.{
  get_layer, list_layers, create_layer, delete_layer_row, get_current, set_current,
}

abbrev pub snapshot_input : TenantId → LayerId → Bytes → CreateLayerInput
snapshot_input t current name = record {
  tenant_id = t;
  parent_layer_id = some current;
  layer_name = name;
  description = some (bytes "Snapshot: " ++ name);
  created_by = bytes "csi-driver";
  mount_entry_id = none;
  is_working = false;
}

-- `create_snapshot`
unfoldable pub create_volume_snapshot : TenantId → Bytes → Db → FsResult Layer × Db
create_volume_snapshot t name db = elim (get_current t db) [
  | none ↦ (err (storage (bytes "No current layer found for tenant")), db)
  | some current ↦ create_layer (snapshot_input t current name) db
]

-- `delete_snapshot`; whether a row was deleted is not looked at.
unfoldable pub delete_volume_snapshot : TenantId → LayerId → Db → FsResult (Unit {0}) × Db
delete_volume_snapshot t l db = and_then (delete_layer_row t l db) λ deleted db'. (ok tt, db')

-- `list_snapshots`
unfoldable pub list_volume_snapshots : TenantId → Db → List Layer
unfolding list_layers
list_volume_snapshots t db = list_layers t db

unfoldable pub restore_from_snapshot : TenantId → LayerId → Db → FsResult (Unit {0}) × Db
restore_from_snapshot t l db = elim (get_layer t l db) [
  | none ↦ (err (storage (bytes "Snapshot not found")), db)
  | some r ↦ set_current t l db
]

unfoldable pub get_snapshot : TenantId → LayerId → FsResult (Option Layer)
get_snapshot t l = err (storage (bytes "get_snapshot not implemented"))
