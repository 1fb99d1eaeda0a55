-- ===== src/Composition/LayerChain.antt =====
-- src/composition/layer_chain.rs, and `batch_snapshot` of src/storage/layer.rs: the layers of mounts
-- that are named by their tenant, and their snapshots. Reasons are without the errors' texts.
mod Unset
mod Examples
use tarbox.Base.{
  ℕ, zero, suc, Bytes, bytes, bytes_eq, Bool, true, false, not, ◌&&◌, Option, none, some, List, [],
  ◌∷◌, find, keep, map, ok, err, ok_or, ◌>>=◌, ◌==◌, ltb, if◌then◌else◌,
}
use tarbox.Path.{FsResult, storage}
use tarbox.Storage.Models.{TenantId, LayerId, Layer, MountRow, Db, and_then}
use tarbox.Storage.Layers.Mounts.{
  get_working_layer, get_mount_layers, create_initial_layers, create_snapshot,
}
use tarbox.Composition.Resolver.{MountEntry}
use tarbox.Storage.MountEntries.{get_mount_entry, get_mount_entry_by_name, list_mount_entries}
use tarbox.Composition.Publisher.{is_working_source, mount_not_found}

pub record SnapshotResult : Type 0 where
  pub mount_name : Bytes
  pub layer_id : Option LayerId
  pub skipped : Bool
  pub reason : Option Bytes

pub record LayerChain : Type 0 where
  pub mount_entry_id : ℕ
  pub mount_name : Bytes
  pub layers : List Layer
  pub working_layer : Layer

unfoldable pub initialize_layer_chain : (ℕ → Bytes) → TenantId → ℕ → Db → FsResult (Unit {0}) × Db
initialize_layer_chain show t m db =
    and_then (create_initial_layers show t m db) λ ls db'. (ok tt, db')

abbrev pub chain_of : ℕ → MountEntry → List Layer → Layer → LayerChain
chain_of i m ls w = record {
  mount_entry_id = i;
  mount_name = m.name;
  layers = ls;
  working_layer = w;
}

-- `get_layer_chain`; the layers of a mount come in the order of creation.
unfoldable pub mount_layer_chain : ℕ → Db → FsResult LayerChain
mount_layer_chain i db = get_mount_entry i db >>= λ found.
    ok_or found (storage (bytes "Mount entry not found")) >>= λ m.
    ok_or (find (λ (l : Layer). l.is_working) (get_mount_layers i db))
      (storage (bytes "Working layer not found for mount"))
    >>= λ w. ok (chain_of i m (get_mount_layers i db) w)

-- `snapshot`
unfoldable pub snapshot_mount :
    (ℕ → Bytes) → TenantId → Bytes → Bytes → Option Bytes → Db → FsResult Layer × Db
snapshot_mount show t mount_name name description db =
    elim (get_mount_entry_by_name t mount_name db) [
      | err e ↦ (err e, db)
      | ok none ↦ (err (storage mount_not_found), db)
      | ok (some m) ↦ create_snapshot show m.mount_entry_id name description db
    ]

abbrev pub skipped_for : Bytes → Bytes → SnapshotResult
skipped_for mount_name reason = record {
  mount_name = mount_name;
  layer_id = none;
  skipped = true;
  reason = some reason;
}

abbrev pub snapshot_result : Bytes → LayerId → SnapshotResult
snapshot_result mount_name l = record {
  mount_name = mount_name;
  layer_id = some l;
  skipped = false;
  reason = none;
}

abbrev unchanged : Option Layer → Bool
unchanged none = false
unchanged (some l) = l.file_count == 0

abbrev snapshot_outcome : Bytes → FsResult Layer × Db → SnapshotResult × Db
snapshot_outcome mount_name (ok l, db) = (snapshot_result mount_name l.layer_id, db)
snapshot_outcome mount_name (err e, db) = (skipped_for mount_name (bytes "Error"), db)

-- The query reads `current_layer_id` as a UUID: NULL in the column is an error of the decoding.
abbrev pub batch_one :
    (ℕ → Bytes) → Bytes → Bool → Bytes → Option MountRow → Db → SnapshotResult × Db
batch_one show name skip mount_name none db = (skipped_for mount_name (bytes "Mount not found"), db)
batch_one show name skip mount_name (some r) db = elim r.current_layer_id [
  | none ↦ (skipped_for mount_name (bytes "Database error"), db)
  | some l ↦
      if skip && unchanged (get_working_layer r.mount_entry_id db)
      then (skipped_for mount_name (bytes "No changes"), db)
      else snapshot_outcome mount_name (create_snapshot show r.mount_entry_id name none db)
]

abbrev pub mount_named : TenantId → Bytes → Db → Option MountRow
mount_named t name db = find (λ (r : MountRow). r.tenant_id == t && bytes_eq r.name name) db.mounts

-- `batch_snapshot`, which `snapshot_multiple` calls.
unfoldable pub batch_snapshot :
    (ℕ → Bytes) → TenantId → List Bytes → Bytes → Bool → Db → List SnapshotResult × Db
batch_snapshot show t [] name skip db = ([], db)
batch_snapshot show t (mount_name ∷ rest) name skip db =
    let one = batch_one show name skip mount_name (mount_named t mount_name db) db in
    let others = batch_snapshot show t rest name skip one.1 in (one.0 ∷ others.0, others.1)

-- The mounts that `snapshot_all` names.
abbrev pub working_mounts : List MountEntry → List Bytes
working_mounts ms =
    map (λ (m : MountEntry). m.name) (keep (λ (m : MountEntry). is_working_source m.source) ms)

-- Without mounts of that kind, `batch_snapshot` of none gives the same empty list.
unfoldable pub snapshot_all :
    (Bytes → Bytes → Bool)
    → (ℕ → Bytes)
    → TenantId
    → Bytes
    → Bool
    → Db
    → FsResult (List SnapshotResult) × Db
unfolding batch_snapshot
snapshot_all collate show t name skip db = elim (list_mount_entries collate t db) [
  | err e ↦ (err e, db)
  | ok ms ↦ let done = batch_snapshot show t (working_mounts ms) name skip db in (ok done.0, done.1)
]

unfoldable pub has_changes : ℕ → Db → FsResult Bool
has_changes m db =
    ok_or (get_working_layer m db) (storage (bytes "Working layer not found")) >>= λ w.
    ok (ltb 0 w.file_count)
