-- ===== src/Fuse/Backend/Calls.antt =====
-- src/fuse/backend.rs: the operations of the interface.
use tarbox.Base.{
  ℕ, Bytes, bytes, bytes_eq, not, ◌||◌, Option, none, some, List, [], ◌∷◌, ◌++◌, map, length,
  is_some, ok, err, ◌==◌, if◌then◌else◌,
}
use tarbox.Path
use tarbox.Path.{nonempty}
use tarbox.Storage.Models.{TenantId, Db}
use tarbox.Layer.Hooks
use tarbox.Layer.Hooks.{
  HookError, HookResult, HookFileAttr, is_hook_path, tarbox_hook_path, layer_error, invalid_input,
  internal, content, write_success, error, not_a_hook,
}
use tarbox.Layer.Hooks.Reading.{handle_read}
use tarbox.Layer.Hooks.Writing.{handle_write}
use tarbox.Fs.Operations
use tarbox.Fs.Operations.{FileSystem, new_file_system, message}
use tarbox.Fuse.Interface.{
  FsResult, path_not_found, not_supported, FileAttr, DirEntry, SetAttr, StatFs, FilesystemInterface,
}
use tarbox.Fuse.Backend.{
  inode_to_attr, Outside, mapped, then_ok, slice, hook_bytes, sliced, u32, hook_written,
  refuse_hook, hook_entries, entry_of, tarbox_entry, hook_attr_to_file_attr, or_zero,
}

module _ (o : Outside) (t : TenantId) where
  -- `self.fs().await?`, and the operation.
  abbrev pub with_fs {ℓ} :
      {A : Type ℓ} → Db → (FileSystem → Db → Path.FsResult A × Db) → FsResult A × Db
  with_fs db k = then_ok (mapped (new_file_system t db)) λ fs db'. mapped (k fs db')

  unfoldable pub read_file : Bytes → ℕ → ℕ → Db → FsResult Bytes × Db
  read_file path offset size db =
      if is_hook_path path
      then (sliced offset size (hook_bytes (handle_read o.hooks t db path)), db)
      else then_ok (with_fs db λ fs db'. (Operations.read_file fs path db', db'))
          λ d db'. (ok (slice offset size d), db')

  unfoldable pub write_file : Bytes → ℕ → Bytes → Db → FsResult ℕ × Db
  write_file path offset d db =
      if is_hook_path path
      then (if not (offset == 0)
          then (err (not_supported (bytes "Offset writes not supported for hook paths")), db)
          else hook_written (length d) (handle_write o.hooks t path d db))
      else if not (offset == 0)
      then (err (not_supported (bytes "Offset writes not supported yet")), db)
      else then_ok (with_fs db λ fs db'. Operations.write_file o.cow fs path d db')
          λ _ db'. (ok (u32 (length d)), db')

  unfoldable pub create_file : Bytes → ℕ → Db → FsResult FileAttr × Db
  create_file path mode db = refuse_hook path (bytes "Cannot create files in /.tarbox/") db (
      then_ok (with_fs db λ fs db'. Operations.create_file fs path db')
        λ r db'. (ok (inode_to_attr r), db'))

  unfoldable pub delete_file : Bytes → Db → FsResult (Unit {0}) × Db
  delete_file path db =
      refuse_hook path (bytes "Cannot delete files in /.tarbox/") db
        (with_fs db λ fs db'. Operations.delete_file fs path db')

  unfoldable pub truncate : Bytes → ℕ → Db → FsResult (Unit {0}) × Db
  truncate path size db = refuse_hook path (bytes "Cannot truncate files in /.tarbox/") db (
      if not (size == 0)
      then (err (not_supported (bytes "Non-zero truncate not supported yet")), db)
      else with_fs db λ fs db'. Operations.write_file o.cow fs path [] db')

  unfoldable pub create_dir : Bytes → ℕ → Db → FsResult FileAttr × Db
  create_dir path mode db = refuse_hook path (bytes "Cannot create directories in /.tarbox/") db (
      then_ok (with_fs db λ fs db'. Operations.create_directory fs path db')
        λ r db'. (ok (inode_to_attr r), db'))

  unfoldable pub read_dir : Bytes → Db → FsResult (List DirEntry) × Db
  unfolding hook_entries
  read_dir path db =
      if is_hook_path path
      then (hook_entries o.hash_path path (Hooks.read_dir t db path), db)
      else then_ok (with_fs db λ fs db'. (Operations.list_directory o.collate fs path db', db'))
          λ rows db'. (
            ok (
                map entry_of rows
                ++ (if bytes_eq path (bytes "/") then tarbox_entry o.hash_path ∷ [] else [])),
            db',
          )

  unfoldable pub remove_dir : Bytes → Db → FsResult (Unit {0}) × Db
  remove_dir path db =
      refuse_hook path (bytes "Cannot remove directories in /.tarbox/") db
        (with_fs db λ fs db'. Operations.remove_directory o.collate fs path db')

  unfoldable pub get_attr : Bytes → Db → FsResult FileAttr × Db
  unfolding hook_attr_to_file_attr
  get_attr path db =
      if is_hook_path path
      then elim (Hooks.get_attr path) [
        | some a ↦ (ok (hook_attr_to_file_attr o.hash_path db.clock path a), db)
        | none ↦ (err (path_not_found path), db)
      ]
      else then_ok (with_fs db λ fs db'. (Operations.stat fs path db', db'))
          λ r db'. (ok (inode_to_attr r), db')

  unfoldable pub chmod : Bytes → ℕ → Db → FsResult (Unit {0}) × Db
  chmod path mode db =
      refuse_hook path (bytes "Cannot change permissions of /.tarbox/ entries") db
        (with_fs db λ fs db'. Operations.chmod fs path mode db')

  unfoldable pub chown : Bytes → ℕ → ℕ → Db → FsResult (Unit {0}) × Db
  chown path uid gid db =
      refuse_hook path (bytes "Cannot change ownership of /.tarbox/ entries") db
        (with_fs db λ fs db'. Operations.chown fs path uid gid db')

  -- The three steps of `set_attr`, each of which is made if its attribute is given.
  abbrev pub set_mode : Bytes → Option ℕ → Db → FsResult (Unit {0}) × Db
  set_mode path none db = (ok tt, db)
  set_mode path (some mode) db = with_fs db λ fs db'. Operations.chmod fs path mode db'

  abbrev pub set_owner : Bytes → Option ℕ → Option ℕ → Db → FsResult (Unit {0}) × Db
  set_owner path uid gid db =
      if is_some uid || is_some gid
      then (with_fs db λ fs db'. Operations.chown fs path (or_zero uid) (or_zero gid) db')
      else (ok tt, db)

  abbrev pub set_size : Bytes → Option ℕ → Db → FsResult (Unit {0}) × Db
  set_size path none db = (ok tt, db)
  set_size path (some size) db = truncate path size db

  unfoldable pub set_attr : Bytes → SetAttr → Db → FsResult FileAttr × Db
  unfolding truncate get_attr
  set_attr path a db = refuse_hook path (bytes "Cannot change attributes of /.tarbox/ entries") db (
      then_ok (set_mode path a.mode db) λ _ db1.
        then_ok (set_owner path a.uid a.gid db1)
          λ _ db2. then_ok (set_size path a.size db2) λ _ db3. get_attr path db3)

  unfoldable pub statfs : Db → FsResult StatFs × Db
  statfs db = (
    ok (record {
      blocks = 1_000_000_000;
      bfree = 500_000_000;
      bavail = 500_000_000;
      files = 10_000_000;
      ffree = 9_000_000;
      bsize = 4096;
      namelen = 255;
    }),
    db,
  )

  -- `impl FilesystemInterface for TarboxBackend`
  unfoldable pub tarbox_backend : FilesystemInterface Db
  tarbox_backend = record {
    read_file = read_file;
    write_file = write_file;
    create_file = create_file;
    delete_file = delete_file;
    truncate = truncate;
    create_dir = create_dir;
    read_dir = read_dir;
    remove_dir = remove_dir;
    get_attr = get_attr;
    set_attr = set_attr;
    chmod = chmod;
    chown = chown;
    statfs = statfs;
  }
