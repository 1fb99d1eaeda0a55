-- ===== src/Fuse/Backend.antt =====
-- src/fuse/backend.rs: the interface over the file system, with the virtual files below `/.tarbox`.
-- The state is the database. `u32` and `i32` casts, which are inverse to each other, are left out.
pub mod Calls
mod Hidden
mod Attributes
mod Slices
mod ReadBack
mod Examples
use tarbox.Base.{
  ℕ, suc, ◌+◌, ◌-◌, ◌%◌, ◌^◌, min, Bytes, bytes, bytes_eq, Bool, true, false, not, ◌&&◌, ◌||◌, any,
  Option, none, some, List, [], ◌∷◌, ◌++◌, map, keep, length, take, drop, is_empty, is_some, leb,
  decimal, Result, ok, err, ◌==◌, if◌then◌else◌,
}
use tarbox.Path
use tarbox.Path.{nonempty}
use tarbox.Storage.Models.{TenantId, Inode, InodeType, file, dir, symlink, Db}
use tarbox.Storage.Tenants.{get_tenant}
use tarbox.Layer.Cow
use tarbox.Layer.Lines.{lines}
use tarbox.Layer.Hooks
use tarbox.Layer.Hooks.{
  HookError, HookResult, HookFileAttr, is_hook_path, tarbox_hook_path, layer_error, invalid_input,
  internal, content, write_success, error, not_a_hook,
}
use tarbox.Layer.Hooks.Files
use tarbox.Layer.Hooks.Reading.{handle_read}
use tarbox.Layer.Hooks.Writing.{handle_write}
use tarbox.Fs.Operations
use tarbox.Fs.Operations.{FileSystem, new_file_system, message}
use tarbox.Wasi.FdTable.{u64_mod}
use tarbox.Fuse.Interface.{
  FsError, FsResult, path_not_found, already_exists, not_directory, is_directory,
  directory_not_empty, invalid_path, permission_denied, not_supported, io_error, FileType,
  regular_file, directory, FileAttr, DirEntry, SetAttr, StatFs, FilesystemInterface,
}

unfoldable pub map_fs_error : Path.FsError → FsError
map_fs_error (Path.path_not_found p) = path_not_found p
map_fs_error (Path.already_exists p) = already_exists p
map_fs_error (Path.not_directory p) = not_directory p
map_fs_error (Path.is_directory p) = is_directory p
map_fs_error (Path.directory_not_empty p) = directory_not_empty p
map_fs_error (Path.invalid_path p) = invalid_path p
map_fs_error (Path.path_too_long n) =
    invalid_path (bytes "path too long: " ++ decimal n ++ bytes " bytes")
map_fs_error (Path.filename_too_long n) =
    invalid_path (bytes "filename too long: " ++ decimal n ++ bytes " bytes")
map_fs_error (Path.storage e) = io_error e

abbrev pub inode_type_to_file_type : InodeType → FileType
inode_type_to_file_type file = regular_file
inode_type_to_file_type dir = directory
inode_type_to_file_type symlink = FileType.symlink

abbrev pub inode_to_attr : Inode → FileAttr
inode_to_attr r = record {
  inode = r.inode_id;
  kind = inode_type_to_file_type r.inode_type;
  size = r.size;
  atime = r.atime;
  mtime = r.mtime;
  ctime = r.ctime;
  mode = r.mode;
  uid = r.uid;
  gid = r.gid;
  nlinks = 1;
}

unfoldable pub hook_error_to_fs_error : HookError → FsError
hook_error_to_fs_error (HookError.invalid_path p) = path_not_found p
hook_error_to_fs_error (HookError.permission_denied p) = permission_denied p
hook_error_to_fs_error (invalid_input m) = invalid_path m
hook_error_to_fs_error (layer_error e) = io_error (message e)
hook_error_to_fs_error (internal m) = io_error m

pub record TarboxBackend : Type 0 where
  pub tenant_id : TenantId
  pub root_inode_id : ℕ

unfoldable pub new_backend : TenantId → Db → FsResult TarboxBackend
new_backend t db = elim (get_tenant t db) [
  | none ↦ err (path_not_found (bytes "tenant not found"))
  | some r ↦ ok (record { tenant_id = t; root_inode_id = r.root_inode_id })
]

-- What the operations use of other crates: the contents of files, the contents of virtual files, the
-- order of names in the database, and the hash of a path.
pub record Outside : Type 0 where
  pub cow : Cow.Outside
  pub hooks : Files.Outside
  pub collate : Bytes → Bytes → Bool
  pub hash_path : Bytes → ℕ

-- `0x8000_0000_0000_0000 | (hash & 0x7FFF_FFFF_FFFF_FFFF)`
abbrev pub high_inode : ℕ → ℕ
high_inode hash = 2 ^ 63 + hash % 2 ^ 63

-- `.map_err(map_fs_error)?`
abbrev pub mapped {ℓ} : {A : Type ℓ} → Path.FsResult A × Db → FsResult A × Db
mapped (ok a, db) = (ok a, db)
mapped (err e, db) = (err (map_fs_error e), db)

abbrev pub then_ok {ℓ κ} :
    {A : Type ℓ} {B : Type κ} → FsResult A × Db → (A → Db → FsResult B × Db) → FsResult B × Db
then_ok (ok a, db) k = k a db
then_ok (err e, db) k = (err e, db)

-- `data[start..end]`
abbrev pub slice : ℕ → ℕ → Bytes → Bytes
slice offset size d =
    if leb (length d) offset
    then []
    else take (min ((offset + size) % u64_mod) (length d) - offset) (drop offset d)

-- What a read of a virtual file gives.
abbrev pub hook_bytes : HookResult → FsResult Bytes
hook_bytes (content s) = ok s
hook_bytes (write_success m) = ok m
hook_bytes (error e) = err (hook_error_to_fs_error e)
hook_bytes not_a_hook = ok []

abbrev pub sliced : ℕ → ℕ → FsResult Bytes → FsResult Bytes
sliced offset size (ok d) = ok (slice offset size d)
sliced offset size (err e) = err e

abbrev pub u32 : ℕ → ℕ
u32 n = n % 2 ^ 32

abbrev pub hook_written : ℕ → HookResult × Db → FsResult ℕ × Db
hook_written n (error e, db) = (err (hook_error_to_fs_error e), db)
hook_written n (_, db) = (ok (u32 n), db)

-- What is refused below `/.tarbox`, with the message of the operation.
abbrev pub refuse_hook {ℓ} : {A : Type ℓ} → Bytes → Bytes → Db → FsResult A × Db → FsResult A × Db
refuse_hook path text db otherwise =
    if is_hook_path path then (err (permission_denied text), db) else otherwise

-- The names by which `read_dir` tells directories from files.
abbrev pub known_names : List Bytes
known_names =
    bytes "layers"
    ∷ bytes "snapshots"
    ∷ bytes "stats"
    ∷ bytes "current"
    ∷ bytes "list"
    ∷ bytes "new"
    ∷ bytes "switch"
    ∷ bytes "drop"
    ∷ bytes "tree"
    ∷ bytes "diff"
    ∷ bytes "usage"
    ∷ []

abbrev pub is_hook_dir : Bytes → Bytes → Bool
is_hook_dir path name =
    any (bytes_eq name) known_names
    && (bytes_eq path tarbox_hook_path
        || (bytes_eq path (bytes "/.tarbox/layers") || bytes_eq path (bytes "/.tarbox/stats")))

-- A row of the listing of a virtual directory.
abbrev pub hook_entry : (Bytes → ℕ) → Bytes → Bytes → DirEntry
hook_entry hash path name = record {
  inode = high_inode (hash (path ++ bytes "/" ++ name));
  name = name;
  kind = if is_hook_dir path name then directory else regular_file;
}

unfoldable pub hook_entries : (Bytes → ℕ) → Bytes → HookResult → FsResult (List DirEntry)
hook_entries hash path (content text) = ok (map (hook_entry hash path) (keep nonempty (lines text)))
hook_entries hash path (error e) = err (hook_error_to_fs_error e)
hook_entries hash path (write_success m) = ok []
hook_entries hash path not_a_hook = ok []

abbrev pub entry_of : Inode → DirEntry
entry_of r = record {
  inode = r.inode_id;
  name = r.name;
  kind = inode_type_to_file_type r.inode_type;
}

-- The directory `.tarbox`, which the root has besides its children.
abbrev pub tarbox_entry : (Bytes → ℕ) → DirEntry
tarbox_entry hash = record {
  inode = high_inode (hash tarbox_hook_path);
  name = bytes ".tarbox";
  kind = directory;
}

unfoldable pub hook_attr_to_file_attr : (Bytes → ℕ) → ℕ → Bytes → HookFileAttr → FileAttr
hook_attr_to_file_attr hash now path a = record {
  inode = high_inode (hash path);
  kind = if a.is_dir then directory else regular_file;
  size = a.size;
  atime = now;
  mtime = now;
  ctime = now;
  mode = a.mode;
  uid = 0;
  gid = 0;
  nlinks = 1;
}

abbrev pub or_zero : Option ℕ → ℕ
or_zero none = 0
or_zero (some n) = n
