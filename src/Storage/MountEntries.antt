-- ===== src/Storage/MountEntries.antt =====
-- src/storage/mount_entry.rs: the table of mounts. Paths are kept as their text, without the
-- replacement of invalid bytes, JSON is text, and the two times of a row are left out but for their type, as is
-- the length limit of VARCHAR. A mount takes its layers and its publication along when it goes.
pub mod Changes
mod Apart
pub mod Steps
mod Stored
mod Examples
use tarbox.Base.{
  ℕ, suc, Bytes, bytes, bytes_eq, Bool, true, false, not, ◌&&◌, ◌||◌, Option, none, some, List, [],
  ◌∷◌, ◌++◌, find, keep, any, map, Result, ok, err, ok_or, ◌>>=◌, ◌==◌, if◌then◌else◌,
}
use tarbox.Path.{FsResult, storage}
use tarbox.Storage.Models.{
  decode_utc, mount_times, TenantId, LayerId, Layer, LayerEntry, TextFileMetadata, TextLineMap,
  SourceColumns, MountRow, PublishedRow, Db, and_then,
}
use tarbox.Storage.Inodes.{foreign_key, unique_key, holds, mem, release}
use tarbox.Storage.Layers.{knows_tenant, knows_mount, refers}
use tarbox.Composition.Resolver.{
  MountSource, host, layer, published, working_layer, MountMode, parse_mode, mode_as_str,
  MountEntry, validate_no_conflict, ResolveError,
}

pub record CreateMountEntry : Type 0 where
  pub name : Bytes
  pub virtual_path : Bytes
  pub source : MountSource
  pub mode : MountMode
  pub is_file : Bool
  pub metadata : Option Bytes

pub record UpdateMountEntry : Type 0 where
  pub mode : Option MountMode
  pub enabled : Option Bool
  pub metadata : Option Bytes

abbrev no_columns : Bytes → SourceColumns
no_columns kind = record {
  source_type = kind;
  host_path = none;
  source_mount_id = none;
  source_layer_id = none;
  source_subpath = none;
  source_publish_name = none;
}

-- What an insertion binds for a source.
unfoldable pub source_columns : MountSource → SourceColumns
source_columns (host path) = record (no_columns (bytes "host")) { host_path = some path }
source_columns (layer mount l subpath) = record (no_columns (bytes "layer")) {
  source_mount_id = some mount;
  source_layer_id = l;
  source_subpath = subpath;
}
source_columns (published name subpath) = record (no_columns (bytes "published")) {
  source_subpath = subpath;
  source_publish_name = some name;
}
source_columns working_layer = no_columns (bytes "working_layer")

-- NULL in a column that is read as a value.
abbrev pub decode_error {ℓ} : {A : Type ℓ} → Option A → FsResult A
decode_error o = ok_or o (storage (bytes "unexpected null"))

unfoldable pub parse_source : SourceColumns → FsResult MountSource
parse_source c =
    if bytes_eq c.source_type (bytes "host")
    then (decode_error c.host_path >>= λ path. ok (host path))
    else if bytes_eq c.source_type (bytes "layer")
    then (decode_error c.source_mount_id >>= λ m. ok (layer m c.source_layer_id c.source_subpath))
    else if bytes_eq c.source_type (bytes "published")
    then (decode_error c.source_publish_name >>= λ name. ok (published name c.source_subpath))
    else if bytes_eq c.source_type (bytes "working_layer")
    then ok working_layer
    else err (storage (bytes "Unknown source type"))

abbrev pub entry_of_row : MountRow → MountSource → MountMode → MountEntry
entry_of_row r source mode = record {
  mount_entry_id = r.mount_entry_id;
  tenant_id = r.tenant_id;
  name = r.name;
  virtual_path = r.virtual_path;
  source = source;
  mode = mode;
  is_file = r.is_file;
  enabled = r.enabled;
  current_layer_id = r.current_layer_id;
  metadata = r.metadata;
}

-- The times are read before the source and the mode.
unfoldable pub row_to_mount_entry : MountRow → FsResult MountEntry
unfolding parse_source
row_to_mount_entry r = decode_utc mount_times >>= λ _. parse_source r.source >>= λ source.
    ok_or (parse_mode r.mode) (storage (bytes "Invalid mode")) >>= λ mode.
    ok (entry_of_row r source mode)

-- `match row`
abbrev pub found_entry : Option MountRow → FsResult (Option MountEntry)
found_entry none = ok none
found_entry (some r) = row_to_mount_entry r >>= λ m. ok (some m)

unfoldable pub get_mount_entry : ℕ → Db → FsResult (Option MountEntry)
get_mount_entry m db = found_entry (find (λ (r : MountRow). r.mount_entry_id == m) db.mounts)

unfoldable pub get_mount_entry_by_name : TenantId → Bytes → Db → FsResult (Option MountEntry)
get_mount_entry_by_name t name db =
    found_entry (find (λ (r : MountRow). r.tenant_id == t && bytes_eq r.name name) db.mounts)

unfoldable pub get_mount_entry_by_path : TenantId → Bytes → Db → FsResult (Option MountEntry)
get_mount_entry_by_path t path db =
    found_entry
      (find (λ (r : MountRow). r.tenant_id == t && bytes_eq r.virtual_path path) db.mounts)

abbrev pub place_mount : (Bytes → Bytes → Bool) → MountRow → List MountRow → List MountRow
place_mount collate r [] = r ∷ []
place_mount collate r (x ∷ xs) =
    let rest = place_mount collate r xs in if collate r.name x.name then r ∷ x ∷ xs else x ∷ rest

-- `ORDER BY name`
abbrev pub order_mounts : (Bytes → Bytes → Bool) → List MountRow → List MountRow
order_mounts collate [] = []
order_mounts collate (r ∷ rs) = place_mount collate r (order_mounts collate rs)

-- `rows.iter().map(..).collect()`: the first error, if there is one.
abbrev pub collect_entries : List MountRow → FsResult (List MountEntry)
collect_entries [] = ok []
collect_entries (r ∷ rs) =
    let rest = collect_entries rs in row_to_mount_entry r >>= λ m. rest >>= λ ms. ok (m ∷ ms)

unfoldable pub list_mount_entries :
    (Bytes → Bytes → Bool) → TenantId → Db → FsResult (List MountEntry)
list_mount_entries collate t db =
    collect_entries (order_mounts collate (keep (λ (r : MountRow). r.tenant_id == t) db.mounts))

abbrev pub without_id : Option ℕ → List MountEntry → List MountEntry
without_id none ms = ms
without_id (some i) ms = keep (λ (m : MountEntry). not (m.mount_entry_id == i)) ms

abbrev pub is_conflict : Result ResolveError (Unit {0}) → Bool
is_conflict (ok u) = false
is_conflict (err e) = true

unfoldable pub check_path_conflict :
    (Bytes → Bytes → Bool) → TenantId → Bytes → Bool → Option ℕ → Db → FsResult Bool
unfolding list_mount_entries
check_path_conflict collate t path is_file exclude db = list_mount_entries collate t db >>= λ ms.
    ok (is_conflict (validate_no_conflict (without_id exclude ms) path is_file))

abbrev pub new_mount_row : ℕ → TenantId → CreateMountEntry → MountRow
new_mount_row i t c = record {
  mount_entry_id = i;
  tenant_id = t;
  name = c.name;
  virtual_path = c.virtual_path;
  is_file = c.is_file;
  source = source_columns c.source;
  mode = mode_as_str c.mode;
  enabled = true;
  current_layer_id = none;
  metadata = c.metadata;
}

abbrev pub new_mount_entry : ℕ → TenantId → CreateMountEntry → MountEntry
new_mount_entry i t c = entry_of_row (new_mount_row i t c) c.source c.mode

abbrev pub mount_taken : TenantId → CreateMountEntry → Db → Bool
mount_taken t c db =
    any
      (λ (r : MountRow).
        r.tenant_id == t && (bytes_eq r.name c.name || bytes_eq r.virtual_path c.virtual_path))
      db.mounts

abbrev pub mount_refers : TenantId → CreateMountEntry → Db → Bool
mount_refers t c db =
    knows_tenant t db && refers (λ m. knows_mount m db) (source_columns c.source).source_mount_id

-- The INSERT, with the two keys and the references of the table.
abbrev pub insert_mount : TenantId → CreateMountEntry → Db → FsResult MountEntry × Db
insert_mount t c db =
    if mount_taken t c db
    then (err (storage unique_key), db)
    else if not (mount_refers t c db)
    then (err (storage foreign_key), db)
    else (
      ok (new_mount_entry db.next_uuid t c),
      record db {
        mounts = db.mounts ++ new_mount_row db.next_uuid t c ∷ [];
        next_uuid = suc db.next_uuid;
      },
    )

unfoldable pub create_mount_entry :
    (Bytes → Bytes → Bool) → TenantId → CreateMountEntry → Db → FsResult MountEntry × Db
unfolding check_path_conflict
create_mount_entry collate t c db =
    elim (check_path_conflict collate t c.virtual_path c.is_file none db) [
      | err e ↦ (err e, db)
      | ok true ↦ (err (storage (bytes "MountPathConflict")), db)
      | ok false ↦ insert_mount t c db
    ]
