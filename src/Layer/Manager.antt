-- ===== src/Layer/Manager.antt =====
-- src/layer/manager.rs: checkpoints, switching, deletion of layers and the record of changes.
pub mod Checkpoints
mod Removal
mod Examples
use tarbox.Base.{
  ℕ, ℤ, Bytes, bytes, Bool, true, false, not, ◌&&◌, ◌||◌, Option, none, some, List, [], ◌∷◌, ◌++◌,
  any, map, is_empty, is_some, Result, ok, err, ◌==◌, if◌then◌else◌,
}
use tarbox.Path.{FsError, FsResult}
use tarbox.Storage.Models.{
  TenantId, InodeId, LayerId, Layer, LayerEntry, ChangeType, TextChanges, CreateLayerInput,
  CreateLayerEntryInput, Db, and_then,
}
use tarbox.Storage.Layers.{
  get_layer, list_layers, create_layer, get_layer_chain, delete_layer_row, add_entry, list_entries,
  get_current, set_current, is_layer, reverse,
}

pub data LayerManagerError : Type 0 where
  layer_not_found : LayerId → LayerManagerError
  no_current_layer : LayerManagerError
  readonly_layer : LayerId → LayerManagerError
  has_child_layers : LayerId → LayerManagerError
  historical_layer_needs_confirmation : LayerId → List Layer → LayerManagerError
  invalid_layer_chain : Bytes → LayerManagerError
  storage_error : FsError → LayerManagerError

abbrev pub LayerManagerResult : Type 0 → Type 0
LayerManagerResult A = Result LayerManagerError A

-- A statement of the layer repository, and `?`.
abbrev pub then_run {ℓ κ} :
    {A : Type ℓ} {B : Type κ}
    → FsResult A × Db
    → (A → Db → Result LayerManagerError B × Db)
    → Result LayerManagerError B × Db
then_run (ok a, db) k = k a db
then_run (err e, db) k = (err (storage_error e), db)

-- An operation of the manager, and `?`.
abbrev pub then_do {ℓ κ} :
    {A : Type ℓ} {B : Type κ}
    → Result LayerManagerError A × Db
    → (A → Db → Result LayerManagerError B × Db)
    → Result LayerManagerError B × Db
then_do (ok a, db) k = k a db
then_do (err e, db) k = (err e, db)

-- The current layer of the tenant, as each operation fetches it.
unfoldable pub get_current_layer : TenantId → Db → LayerManagerResult Layer
get_current_layer t db = elim (get_current t db) [
  | none ↦ err no_current_layer
  | some l ↦ elim (get_layer t l db) [ none ↦ err (layer_not_found l) | some r ↦ ok r ]
]

abbrev pub base_layer : TenantId → CreateLayerInput
base_layer t = record {
  tenant_id = t;
  parent_layer_id = none;
  layer_name = bytes "base";
  description = some (bytes "Initial base layer");
  created_by = bytes "system";
  mount_entry_id = none;
  is_working = false;
}

abbrev pub create_current : TenantId → CreateLayerInput → Db → LayerManagerResult Layer × Db
create_current t c db =
    then_run (create_layer c db)
      λ layer db'. then_run (set_current t layer.layer_id db') λ _ db''. (ok layer, db'')

unfoldable pub initialize_base_layer : TenantId → Db → LayerManagerResult Layer × Db
unfolding get_current_layer
initialize_base_layer t db = elim (get_current_layer t db) [
  | ok r ↦ (ok r, db)
  | err _ ↦ create_current t (base_layer t) db
]

-- The layers but this one whose chain has it; the sort compares equal depths, and so keeps the
-- order of the list.
abbrev pub later_layers : TenantId → LayerId → List Layer → Db → List Layer
later_layers t l [] db = []
later_layers t l (r ∷ rs) db =
    let rest = later_layers t l rs db in
    if not (r.layer_id == l)
      && (is_some r.parent_layer_id
          && any (λ (a : Layer). a.layer_id == l) (get_layer_chain t r.layer_id db))
    then r ∷ rest
    else rest

unfoldable pub get_future_layers : TenantId → LayerId → Db → List Layer
get_future_layers t l db = later_layers t l (list_layers t db) db

-- The loop over `future_layers.iter().rev()`.
abbrev pub delete_all : TenantId → List Layer → Db → FsResult (Unit {0}) × Db
delete_all t [] db = (ok tt, db)
delete_all t (r ∷ rs) db = and_then (delete_layer_row t r.layer_id db) λ _ db'. delete_all t rs db'

abbrev pub with_readonly : Bool → TenantId → LayerId → Layer → Layer
with_readonly b t l r = if is_layer t l r then record r { is_readonly = b } else r

unfoldable pub set_layer_readonly : TenantId → LayerId → Bool → Db → Db
set_layer_readonly t l b db = record db { layers = map (with_readonly b t l) db.layers }

abbrev pub checkpoint_layer : TenantId → LayerId → Bytes → Option Bytes → CreateLayerInput
checkpoint_layer t parent name description = record {
  tenant_id = t;
  parent_layer_id = some parent;
  layer_name = name;
  description = description;
  created_by = bytes "user";
  mount_entry_id = none;
  is_working = false;
}

-- From the deletion of the layers that come later.
unfoldable pub advance :
    TenantId → LayerId → List Layer → Bytes → Option Bytes → Db → LayerManagerResult Layer × Db
unfolding set_layer_readonly
advance t l later name description db = then_run (delete_all t (reverse later) db) λ _ db'.
    create_current t (checkpoint_layer t l name description) (set_layer_readonly t l true db')

unfoldable pub create_checkpoint_with_confirm :
    TenantId → Bytes → Option Bytes → Bool → Db → LayerManagerResult Layer × Db
unfolding advance get_current_layer
create_checkpoint_with_confirm t name description confirm db = elim (get_current_layer t db) [
  | err e ↦ (err e, db)
  | ok current ↦
      let later = get_future_layers t current.layer_id db in
      if not (is_empty later) && not confirm
      then (err (historical_layer_needs_confirmation current.layer_id later), db)
      else advance t current.layer_id later name description db
]

unfoldable pub create_checkpoint :
    TenantId → Bytes → Option Bytes → Db → LayerManagerResult Layer × Db
create_checkpoint t name description db = create_checkpoint_with_confirm t name description false db

unfoldable pub switch_to_layer : TenantId → LayerId → Db → LayerManagerResult Layer × Db
switch_to_layer t target db = elim (get_layer t target db) [
  | none ↦ (err (layer_not_found target), db)
  | some r ↦ then_run (set_current t target db) λ _ db'. (ok r, db')
]

-- The current layer moves to the parent before it is deleted.
abbrev pub leave : TenantId → LayerId → Option LayerId → Db → LayerManagerResult (Unit {0}) × Db
leave t l parent db =
    let current = any (λ c. c == l) (given (get_current t db)) in
    if current then to_parent parent else (ok tt, db)
  where
    given : Option LayerId → List LayerId
    given none = []
    given (some c) = c ∷ []

    to_parent : Option LayerId → LayerManagerResult (Unit {0}) × Db
    to_parent none = (err (invalid_layer_chain (bytes "Cannot delete base layer")), db)
    to_parent (some p) = then_run (set_current t p db) λ _ db'. (ok tt, db')

unfoldable pub delete_layer : TenantId → LayerId → Db → LayerManagerResult (Unit {0}) × Db
delete_layer t l db = elim (get_layer t l db) [
  | none ↦ (err (layer_not_found l), db)
  | some r ↦
      if not (is_empty (get_future_layers t l db))
      then (err (has_child_layers l), db)
      else then_do (leave t l r.parent_layer_id db)
          λ _ db'. then_run (delete_layer_row t l db') λ _ db''. (ok tt, db'')
]

unfoldable pub record_change :
    TenantId
    → InodeId
    → Bytes
    → ChangeType
    → Option ℤ
    → Option TextChanges
    → Db
    → LayerManagerResult (Unit {0}) × Db
record_change t i path change delta changes db = elim (get_current_layer t db) [
  | err e ↦ (err e, db)
  | ok r ↦
      if r.is_readonly
      then (err (readonly_layer r.layer_id), db)
      else then_run
          (add_entry
            (record {
              layer_id = r.layer_id;
              tenant_id = t;
              inode_id = i;
              path = path;
              change_type = change;
              size_delta = delta;
              text_changes = changes;
            })
            db)
          λ _ db'. (ok tt, db')
]

unfoldable pub is_at_historical_position : TenantId → Db → Bool
is_at_historical_position t db = elim (get_current t db) [
  | none ↦ false
  | some l ↦ not (is_empty (get_future_layers t l db))
]
