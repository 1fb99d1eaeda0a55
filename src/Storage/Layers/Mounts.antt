-- ===== src/Storage/Layers/Mounts.antt =====
-- src/storage/layer.rs: the layers of a mount, of which one is the working layer. `show` is the
-- text of a UUID. Snapshots of several mounts at once are in Composition/LayerChain.
mod Snapshots
mod Examples
use tarbox.Base.{
  ℕ, Bytes, bytes, bytes_eq, Bool, true, false, not, ◌&&◌, Option, none, some, List, [], ◌∷◌, ◌++◌,
  find, keep, any, map, Result, ok, err, ◌==◌, if◌then◌else◌,
}
use tarbox.Path.{FsResult, storage}
use tarbox.Storage.Models.{TenantId, LayerId, Layer, CreateLayerInput, Db, and_then}
use tarbox.Storage.Inodes.{unique_key, holds}
use tarbox.Storage.Layers.{create_layer}

-- A working layer of this mount.
abbrev pub works_for : ℕ → Layer → Bool
works_for m r = holds r.mount_entry_id m && r.is_working

-- `get_working_layer`
unfoldable pub get_working_layer : ℕ → Db → Option Layer
get_working_layer m db = find (works_for m) db.layers

-- `get_mount_layers`, in the order of creation.
unfoldable pub get_mount_layers : ℕ → Db → List Layer
get_mount_layers m db = keep (λ r. holds r.mount_entry_id m) db.layers

abbrev pub mount_layer :
    (ℕ → Bytes) → TenantId → Option LayerId → Bytes → Bytes → ℕ → Bool → CreateLayerInput
mount_layer show t parent prefix description m working = record {
  tenant_id = t;
  parent_layer_id = parent;
  layer_name = prefix ++ show m;
  description = some description;
  created_by = bytes "system";
  mount_entry_id = some m;
  is_working = working;
}

abbrev pub mount_base : (ℕ → Bytes) → TenantId → ℕ → CreateLayerInput
mount_base show t m = mount_layer show t none (bytes "base-") (bytes "Initial base layer") m false

abbrev pub mount_working : (ℕ → Bytes) → TenantId → LayerId → ℕ → CreateLayerInput
mount_working show t parent m =
    mount_layer show t (some parent) (bytes "working-") (bytes "Working layer") m true

unfoldable pub create_initial_layers :
    (ℕ → Bytes) → TenantId → ℕ → Db → FsResult (Layer × Layer) × Db
create_initial_layers show t m db = and_then (create_layer (mount_base show t m) db) λ base db'.
    and_then (create_layer (mount_working show t base.layer_id m) db')
      λ working db''. (ok (base, working), db'')

abbrev pub sealed_as : Bytes → Option Bytes → Layer → Layer
sealed_as name description r = record r {
  is_working = false;
  layer_name = name;
  description = description;
}

abbrev pub seal_row : LayerId → Bytes → Option Bytes → Layer → Layer
seal_row l name description r = if r.layer_id == l then sealed_as name description r else r

-- The UPDATE of `create_snapshot`: the name is still unique in the tenant.
unfoldable pub seal_working :
    TenantId → LayerId → Bytes → Option Bytes → Db → FsResult (Unit {0}) × Db
seal_working t l name description db =
    if any
      (λ (r : Layer). r.tenant_id == t && (bytes_eq r.layer_name name && not (r.layer_id == l)))
      db.layers
    then (err (storage unique_key), db)
    else (ok tt, record db { layers = map (seal_row l name description) db.layers })

unfoldable pub create_snapshot : (ℕ → Bytes) → ℕ → Bytes → Option Bytes → Db → FsResult Layer × Db
unfolding seal_working
create_snapshot show m name description db = elim (get_working_layer m db) [
  | none ↦ (err (storage (bytes "Working layer not found for mount")), db)
  | some w ↦
      and_then (seal_working w.tenant_id w.layer_id name description db)
        λ _ db'. create_layer (mount_working show w.tenant_id w.layer_id m) db'
]
