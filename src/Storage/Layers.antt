-- ===== src/Storage/Layers.antt =====
-- src/storage/layer.rs: layers, their entries and the current layer of a tenant, with the keys and
-- the trigger of migrations/20260118000003_create_layers.sql and the unique working layer of
-- migrations/20260129233046_update_layers_for_mounts.sql.
pub mod Mounts
pub mod Created
pub mod Counted
mod Chain
mod Examples
use tarbox.Base.{
  ℕ, zero, suc, ◌+◌, Bytes, bytes_eq, Bool, true, false, not, ◌&&◌, ◌||◌, Option, none, some, List,
  [], ◌∷◌, ◌++◌, find, keep, any, map, is_some, ok, err, ◌==◌, if◌then◌else◌,
}
use tarbox.Path.{FsResult, storage}
use tarbox.Storage.Models.{
  TenantId, LayerId, Layer, LayerEntry, CreateLayerInput, CreateLayerEntryInput, active, Tenant, Db,
  MountRow,
}
use tarbox.Storage.Inodes.{get_inode, foreign_key, unique_key, holds, release}

abbrev pub is_layer : TenantId → LayerId → Layer → Bool
is_layer t l r = r.tenant_id == t && r.layer_id == l

-- `get`
unfoldable pub get_layer : TenantId → LayerId → Db → Option Layer
get_layer t l db = find (is_layer t l) db.layers

abbrev pub reverse {ℓ} : {A : Type ℓ} → List A → List A
reverse [] = []
reverse (x ∷ xs) = reverse xs ++ x ∷ []

-- `list`: the newest first.
unfoldable pub list_layers : TenantId → Db → List Layer
list_layers t db = reverse (keep (λ r. r.tenant_id == t) db.layers)

abbrev pub new_layer : CreateLayerInput → Db → Layer
new_layer c db = record {
  layer_id = db.next_uuid;
  tenant_id = c.tenant_id;
  parent_layer_id = c.parent_layer_id;
  layer_name = c.layer_name;
  description = c.description;
  file_count = 0;
  status = active;
  is_readonly = false;
  created_by = c.created_by;
  mount_entry_id = c.mount_entry_id;
  is_working = c.is_working;
}

-- A foreign key that may be NULL.
abbrev pub refers : (ℕ → Bool) → Option ℕ → Bool
refers p none = true
refers p (some k) = p k

abbrev pub knows_tenant : TenantId → Db → Bool
knows_tenant t db = any (λ (r : Tenant). r.tenant_id == t) db.tenants

abbrev pub knows_layer : LayerId → Db → Bool
knows_layer l db = any (λ (r : Layer). r.layer_id == l) db.layers

abbrev pub knows_mount : ℕ → Db → Bool
knows_mount m db = any (λ (r : MountRow). r.mount_entry_id == m) db.mounts

-- Another working layer of the mount of `c`.
abbrev pub has_working : CreateLayerInput → Db → Bool
has_working c db =
    c.is_working
    && any (λ (r : Layer). r.is_working && any (holds r.mount_entry_id) (mount_of c.mount_entry_id))
        db.layers
  where
    mount_of : Option ℕ → List ℕ
    mount_of none = []
    mount_of (some m) = m ∷ []

-- `create`
unfoldable pub create_layer : CreateLayerInput → Db → FsResult Layer × Db
create_layer c db =
    if any (λ (r : Layer). r.tenant_id == c.tenant_id && bytes_eq r.layer_name c.layer_name)
        db.layers
      || has_working c db
    then (err (storage unique_key), db)
    else if not (
        knows_tenant c.tenant_id db
        && (refers (λ l. knows_layer l db) c.parent_layer_id
            && refers (λ m. knows_mount m db) c.mount_entry_id))
    then (err (storage foreign_key), db)
    else (
      ok (new_layer c db),
      record db { layers = db.layers ++ new_layer c db ∷ []; next_uuid = suc db.next_uuid },
    )

-- The recursive query: from a layer to its parent, and on.
unfoldable pub chain_from : ℕ → TenantId → LayerId → Db → List Layer
chain_from zero t l db = []
chain_from (suc fuel) t l db = elim (get_layer t l db) [
  | none ↦ []
  | some r ↦ r ∷ elim r.parent_layer_id [ none ↦ [] | some p ↦ chain_from fuel t p db ]
]

-- `get_layer_chain`. A parent is there before its child, so ids fall along the chain.
unfoldable pub get_layer_chain : TenantId → LayerId → Db → List Layer
unfolding chain_from
get_layer_chain t l db = chain_from db.next_uuid t l db

-- ON DELETE SET NULL of a mount's current layer.
abbrev pub without_current : LayerId → MountRow → MountRow
without_current l r = if holds r.current_layer_id l then record r { current_layer_id = none } else r

-- A child of the layer, or a tenant whose current layer it is.
abbrev pub layer_used : LayerId → Db → Bool
layer_used l db =
    any (λ (r : Layer). holds r.parent_layer_id l) db.layers
    || any (λ (c : TenantId × LayerId). c.1 == l) db.current

-- `delete`: refused by ON DELETE RESTRICT for a layer with children or in use as a current layer.
unfoldable pub delete_layer_row : TenantId → LayerId → Db → FsResult Bool × Db
delete_layer_row t l db =
    if not (is_some (get_layer t l db))
    then (ok false, db)
    else if layer_used l db
    then (err (storage foreign_key), db)
    else (
      ok true,
      record db {
        layers = keep (λ r. not (is_layer t l r)) db.layers;
        entries = keep (λ e. not (e.layer_id == l)) db.entries;
        text_metadata = keep (λ m. not (m.layer_id == l)) db.text_metadata;
        text_blocks = release (keep (λ m. m.layer_id == l) db.line_map) db.text_blocks;
        line_map = keep (λ m. not (m.layer_id == l)) db.line_map;
        mounts = map (without_current l) db.mounts;
      },
    )

abbrev pub is_entry_at : LayerId → Bytes → LayerEntry → Bool
is_entry_at l p e = e.layer_id == l && bytes_eq e.path p

abbrev pub new_entry : CreateLayerEntryInput → Db → LayerEntry
new_entry c db = record {
  entry_id = db.next_uuid;
  layer_id = c.layer_id;
  tenant_id = c.tenant_id;
  inode_id = c.inode_id;
  path = c.path;
  change_type = c.change_type;
  size_delta = c.size_delta;
  text_changes = c.text_changes;
}

-- The columns that ON CONFLICT sets; the inode is not one of them.
abbrev pub revised : CreateLayerEntryInput → LayerEntry → LayerEntry
revised c e = record e {
  change_type = c.change_type;
  size_delta = c.size_delta;
  text_changes = c.text_changes;
}

abbrev pub count_entry : LayerId → Layer → Layer
count_entry l r = if r.layer_id == l then record r { file_count = r.file_count + 1 } else r

-- `add_entry`: the row of this layer and path is inserted or updated, and is then the newest.
unfoldable pub add_entry : CreateLayerEntryInput → Db → FsResult LayerEntry × Db
add_entry c db = elim (find (is_entry_at c.layer_id c.path) db.entries) [
  | some e ↦ (
    ok (revised c e),
    record db {
      entries = keep (λ r. not (is_entry_at c.layer_id c.path r)) db.entries ++ revised c e ∷ [];
    },
  )
  | none ↦
      if not (knows_layer c.layer_id db && is_some (get_inode c.tenant_id c.inode_id db))
      then (err (storage foreign_key), db)
      else (
        ok (new_entry c db),
        record db {
          entries = db.entries ++ new_entry c db ∷ [];
          layers = map (count_entry c.layer_id) db.layers;
          next_uuid = suc db.next_uuid;
        },
      )
]

-- `list_entries`
unfoldable pub list_entries : TenantId → LayerId → Db → List LayerEntry
list_entries t l db = keep (λ e. e.tenant_id == t && e.layer_id == l) db.entries

abbrev pub current_of : TenantId → List (TenantId × LayerId) → Option LayerId
current_of t [] = none
current_of t (c ∷ cs) = let rest = current_of t cs in if c.0 == t then some c.1 else rest

-- `get_current_layer`
unfoldable pub get_current : TenantId → Db → Option LayerId
get_current t db = current_of t db.current

-- `set_current_layer`
unfoldable pub set_current : TenantId → LayerId → Db → FsResult (Unit {0}) × Db
set_current t l db =
    if not (knows_layer l db && knows_tenant t db) then (err (storage foreign_key), db) else (
      ok tt,
      record db { current = (t, l) ∷ keep (λ (c : TenantId × LayerId). not (c.0 == t)) db.current },
    )
