-- ===== src/Fs/Operations.antt =====
-- src/fs/operations.rs: the operations of `FileSystem`, on the tables of the database. An operation
-- that fails leaves the statements that ran before it, since there is no transaction around them.
mod Resolve
mod Create
mod Kept
pub mod Rewritten
pub mod Content
mod Binary
mod Childless
mod Removal
pub mod Examples
use tarbox.Base.{
  ℕ, Bytes, bytes, bytes_eq, Bool, true, false, not, Option, none, some, List, [], ◌∷◌, length,
  is_empty, is_some, Result, ok, err, ◌>>=◌, if◌then◌else◌,
}
use tarbox.Path.{
  FsError, FsResult, path_not_found, already_exists, not_directory, is_directory,
  directory_not_empty, storage, root, normalize_path, split_path, path_components,
}
use tarbox.Storage.Models.{
  TenantId, InodeId, LayerId, Inode, InodeType, file, dir, symlink, CreateInodeInput,
  UpdateInodeInput, Tenant, Layer, Db, and_then,
}
use tarbox.Storage.Tenants.{get_tenant}
use tarbox.Storage.Inodes.{
  get_inode, get_by_parent_and_name, create_inode, list_children, update_inode, delete_inode,
}
use tarbox.Storage.Blocks.{list_blocks, delete_blocks, concat_blocks}
use tarbox.Layer.Cow.{Outside, CowHandler, CowResult, cow_write_file, read_text_file}
use tarbox.Layer.Manager.{
  LayerManagerError, layer_not_found, no_current_layer, readonly_layer, has_child_layers,
  historical_layer_needs_confirmation, invalid_layer_chain, storage_error, initialize_base_layer,
  get_current_layer, record_change,
}

-- `FileSystem`, without its pool. The layer is the current one at the time of `new`.
pub record FileSystem : Type 0 where
  pub tenant_id : TenantId
  pub root_inode_id : InodeId
  pub current_layer_id : LayerId

-- The messages of `LayerManagerError`, without the ids in them.
unfoldable pub message : LayerManagerError → Bytes
message (layer_not_found l) = bytes "Layer not found"
message no_current_layer = bytes "No current layer set for tenant"
message (readonly_layer l) = bytes "Cannot modify readonly layer"
message (has_child_layers l) = bytes "Layer has child layers and cannot be deleted"
message (historical_layer_needs_confirmation l later) =
    bytes "Cannot create layer from historical position without confirmation"
message (invalid_layer_chain m) = bytes "Invalid layer chain"
message (storage_error e) = bytes "Storage error"

-- `.map_err(|e| FsError::Storage(e.into()))?`
abbrev pub then_layer {ℓ κ} :
    {A : Type ℓ} {B : Type κ}
    → Result LayerManagerError A × Db
    → (A → Db → FsResult B × Db)
    → FsResult B × Db
then_layer (ok a, db) k = k a db
then_layer (err e, db) k = (err (storage (message e)), db)

-- A result that does not depend on a statement, and `?`.
abbrev pub check {ℓ κ} :
    {A : Type ℓ} {B : Type κ} → FsResult A → Db → (A → FsResult B × Db) → FsResult B × Db
check (ok a) db k = k a
check (err e) db k = (err e, db)

-- `new`
unfoldable pub new_file_system : TenantId → Db → FsResult FileSystem × Db
new_file_system t db = elim (get_tenant t db) [
  | none ↦ (err (path_not_found (bytes "tenant not found")), db)
  | some tenant ↦ then_layer (initialize_base_layer t db) λ _ db'.
      then_layer (get_current_layer t db', db')
        λ layer db''. (
          ok (record {
            tenant_id = t;
            root_inode_id = tenant.root_inode_id;
            current_layer_id = layer.layer_id;
          }),
          db'',
        )
]

-- The loop over the components, from the inode `i`.
unfoldable pub walk : TenantId → InodeId → Bytes → List Bytes → Db → FsResult InodeId
walk t i normalized [] db = ok i
walk t i normalized (c ∷ cs) db = elim (get_by_parent_and_name t i c db) [
  | none ↦ err (path_not_found normalized)
  | some r ↦ walk t r.inode_id normalized cs db
]

-- `ok_or_else` on the row of an inode.
abbrev pub found : Option Inode → Bytes → FsResult Inode
found none p = err (path_not_found p)
found (some r) p = ok r

-- The part of `resolve_path` after the normalisation.
unfoldable pub resolve_normalized : FileSystem → Bytes → Db → FsResult Inode
unfolding walk
resolve_normalized fs normalized db =
    if bytes_eq normalized root
    then found (get_inode fs.tenant_id fs.root_inode_id db) root
    else path_components normalized >>= λ cs.
        walk fs.tenant_id fs.root_inode_id normalized cs db >>= λ i.
        found (get_inode fs.tenant_id i db) normalized

unfoldable pub resolve_path : FileSystem → Bytes → Db → FsResult Inode
unfolding resolve_normalized
resolve_path fs path db = normalize_path path >>= λ normalized. resolve_normalized fs normalized db

-- `stat`
unfoldable pub stat : FileSystem → Bytes → Db → FsResult Inode
unfolding resolve_path
stat fs path db = resolve_path fs path db

abbrev pub is_dir : InodeType → Bool
is_dir dir = true
is_dir file = false
is_dir symlink = false

abbrev pub is_file : InodeType → Bool
is_file file = true
is_file dir = false
is_file symlink = false

-- The inode that `create_directory` and `create_file` insert below the parent.
abbrev pub child_input : FileSystem → InodeId → Bytes → InodeType → ℕ → CreateInodeInput
child_input fs parent name kind mode = record {
  tenant_id = fs.tenant_id;
  parent_id = some parent;
  name = name;
  inode_type = kind;
  mode = mode;
  uid = 0;
  gid = 0;
}

-- What the two share: they differ in the type and the mode of the inode.
unfoldable pub create_child : FileSystem → Bytes → InodeType → ℕ → Db → FsResult Inode × Db
create_child fs path kind mode db = check (split_path path) db λ (parent_path, name).
    check (resolve_path fs parent_path db) db λ parent.
      if not (is_dir parent.inode_type)
      then (err (not_directory parent_path), db)
      else if is_some (get_by_parent_and_name fs.tenant_id parent.inode_id name db)
      then (err (already_exists path), db)
      else create_inode (child_input fs parent.inode_id name kind mode) db

-- Mode 0o755.
unfoldable pub create_directory : FileSystem → Bytes → Db → FsResult Inode × Db
unfolding create_child
create_directory fs path db = create_child fs path dir 493 db

-- Mode 0o644.
unfoldable pub create_file : FileSystem → Bytes → Db → FsResult Inode × Db
unfolding create_child
create_file fs path db = create_child fs path file 420 db

unfoldable pub list_directory :
    (Bytes → Bytes → Bool) → FileSystem → Bytes → Db → FsResult (List Inode)
list_directory collate fs path db = resolve_path fs path db >>= λ r.
    if not (is_dir r.inode_type)
    then err (not_directory path)
    else ok (list_children collate fs.tenant_id r.inode_id db)

unfoldable pub remove_directory :
    (Bytes → Bytes → Bool) → FileSystem → Bytes → Db → FsResult (Unit {0}) × Db
remove_directory collate fs path db = check (resolve_path fs path db) db λ r.
    if not (is_dir r.inode_type)
    then (err (not_directory path), db)
    else if not (is_empty (list_children collate fs.tenant_id r.inode_id db))
    then (err (directory_not_empty path), db)
    else (ok tt, (delete_inode fs.tenant_id r.inode_id db).1)

abbrev pub cow_handler : FileSystem → CowHandler
cow_handler fs = record { tenant_id = fs.tenant_id; current_layer_id = fs.current_layer_id }

abbrev pub text_or_blocks : Option Bytes → Bytes → Bytes
text_or_blocks none blocks = blocks
text_or_blocks (some content) blocks = content

-- `read_file_internal`: the text of the current layer, or the blocks.
unfoldable pub read_file_internal : FileSystem → InodeId → Db → Bytes
read_file_internal fs i db =
    text_or_blocks (read_text_file (cow_handler fs) i fs.current_layer_id db)
      (concat_blocks (list_blocks fs.tenant_id i db))

unfoldable pub read_file : FileSystem → Bytes → Db → FsResult Bytes
unfolding read_file_internal
read_file fs path db = resolve_path fs path db >>= λ r.
    if not (is_file r.inode_type)
    then err (is_directory path)
    else ok (read_file_internal fs r.inode_id db)

-- Empty old data counts as none.
abbrev pub old_data : Bytes → Option Bytes
old_data d = if is_empty d then none else some d

abbrev pub after_write : ℕ → ℕ → UpdateInodeInput
after_write size now = record {
  size = some size;
  mode = none;
  uid = none;
  gid = none;
  atime = none;
  mtime = some now;
  ctime = none;
}

-- The statements of `write_file` once the inode is known.
unfoldable pub write_inode :
    Outside → FileSystem → InodeId → Bytes → Bytes → Db → FsResult (Unit {0}) × Db
write_inode o fs i path d db =
    and_then (cow_write_file o (cow_handler fs) i d (old_data (read_file_internal fs i db)) db)
      λ r db1.
        then_layer
          (record_change fs.tenant_id i path r.change_type (some r.size_delta) r.text_changes db1)
          λ _ db2.
            and_then (update_inode fs.tenant_id i (after_write (length d) db2.clock) db2)
              λ _ db3. (ok tt, db3)

unfoldable pub write_file : Outside → FileSystem → Bytes → Bytes → Db → FsResult (Unit {0}) × Db
unfolding write_inode
write_file o fs path d db = check (resolve_path fs path db) db λ r.
    if not (is_file r.inode_type)
    then (err (is_directory path), db)
    else write_inode o fs r.inode_id path d db

unfoldable pub delete_file : FileSystem → Bytes → Db → FsResult (Unit {0}) × Db
delete_file fs path db = check (resolve_path fs path db) db λ r.
    if is_dir r.inode_type then (err (is_directory path), db) else (
      ok tt,
      (delete_inode fs.tenant_id r.inode_id (delete_blocks fs.tenant_id r.inode_id db).1).1,
    )

abbrev pub new_mode : ℕ → ℕ → UpdateInodeInput
new_mode mode now = record {
  size = none;
  mode = some mode;
  uid = none;
  gid = none;
  atime = none;
  mtime = none;
  ctime = some now;
}

abbrev pub new_owner : ℕ → ℕ → ℕ → UpdateInodeInput
new_owner uid gid now = record {
  size = none;
  mode = none;
  uid = some uid;
  gid = some gid;
  atime = none;
  mtime = none;
  ctime = some now;
}

unfoldable pub chmod : FileSystem → Bytes → ℕ → Db → FsResult (Unit {0}) × Db
chmod fs path mode db = check (resolve_path fs path db) db λ r.
    and_then (update_inode fs.tenant_id r.inode_id (new_mode mode db.clock) db)
      λ _ db'. (ok tt, db')

unfoldable pub chown : FileSystem → Bytes → ℕ → ℕ → Db → FsResult (Unit {0}) × Db
chown fs path uid gid db = check (resolve_path fs path db) db λ r.
    and_then (update_inode fs.tenant_id r.inode_id (new_owner uid gid db.clock) db)
      λ _ db'. (ok tt, db')
