-- ===== src/Wasi/Adapter.antt =====
-- src/wasi/adapter.rs: the calls of a WASI guest, on the file system and the table of descriptors.
-- A buffer is given by its length, and a read returns the bytes that it put there. Buffers and
-- files are shorter than 2^63 bytes, as all slices of Rust.
mod Reading
mod Examples
use tarbox.Base.{
  ℕ, ◌+◌, ◌-◌, min, Bytes, bytes, Bool, true, false, not, Option, none, some, List, [], ◌∷◌, length,
  take, drop, map, Result, ok, err, ◌>>=◌, leb, if◌then◌else◌, ℤ, ◌%◌,
}
use tarbox.Path.{FsError, FsResult}
use tarbox.Storage.Models.{Inode, InodeType, file, dir, symlink, Db}
use tarbox.Layer.Cow.{Outside}
use tarbox.Fs.Operations.{
  FileSystem, is_dir, stat, read_file, write_file, create_directory, remove_directory, delete_file,
  list_directory,
}
use tarbox.Wasi.Error.{
  WasiError, permission_denied, is_directory_error, not_directory_error, io_error, from_fs_error,
}
use tarbox.Wasi.FdTable.{
  OpenFlags, FileDescriptor, new_descriptor, can_read, can_write, seek, u64_mod, FdTable, allocate,
  get, update, close, len, close_all,
}

-- `map_err(WasiError::from)`
abbrev pub from_fs {ℓ} : {A : Type ℓ} → FsResult A → Result WasiError A
from_fs (ok a) = ok a
from_fs (err e) = err (from_fs_error e)

-- `map_err(|e| WasiError::IoError(..))`, with the text in front of the error.
abbrev pub as_io {ℓ} : {A : Type ℓ} → Bytes → FsResult A → Result WasiError A
as_io text (ok a) = ok a
as_io text (err e) = err (io_error text)

unfoldable pub fd_open :
    FileSystem → Bytes → OpenFlags → Db → FdTable → Result WasiError ℕ × FdTable
fd_open fs path flags db table = elim (from_fs (stat fs path db)) [
  | err e ↦ (err e, table)
  | ok r ↦
      let (fd, table') =
        allocate (new_descriptor r.inode_id path flags (is_dir r.inode_type)) table in
      (ok fd, table')
]

-- The descriptor of a call that reads or writes bytes.
abbrev pub usable : (FileDescriptor → Bool) → FileDescriptor → Result WasiError FileDescriptor
usable allowed d =
    if not (allowed d)
    then err permission_denied
    else if d.is_dir
    then err is_directory_error
    else ok d

abbrev pub advance_by : ℕ → FileDescriptor → FileDescriptor
advance_by n d = record d { position = (d.position + n) % u64_mod }

-- What is read from the data at a position, and the table with the position behind it.
unfoldable pub read_at : ℕ → FileDescriptor → ℕ → Bytes → FdTable → Result WasiError Bytes × FdTable
read_at fd d size content table =
    if leb (length content) d.position
    then (ok [], table)
    else let to_read = min (d.position + size) (length content) - d.position in
      (ok (take to_read (drop d.position content)), update table fd (advance_by to_read d))

-- A result that the rest of the call needs, and `?`.
abbrev pub need {ℓ κ} :
    {A : Type ℓ} {B : Type κ}
    → Result WasiError A
    → FdTable
    → (A → Result WasiError B × FdTable)
    → Result WasiError B × FdTable
need (ok a) table k = k a
need (err e) table k = (err e, table)

unfoldable pub fd_read : FileSystem → ℕ → ℕ → Db → FdTable → Result WasiError Bytes × FdTable
unfolding read_at
fd_read fs fd size db table = need (get table fd >>= usable can_read) table λ d.
    need (as_io (bytes "Failed to read file") (read_file fs d.path db)) table
      λ content. read_at fd d size content table

abbrev pub after_fd_write :
    ℕ
    → FileDescriptor
    → Bytes
    → FdTable
    → FsResult (Unit {0}) × Db
    → (Result WasiError ℕ × FdTable) × Db
after_fd_write fd d written table (ok _, db) =
    ((ok (length written), update table fd (advance_by (length written) d)), db)
after_fd_write fd d written table (err e, db) =
    ((err (io_error (bytes "Failed to write file")), table), db)

-- The whole file is replaced, wherever the position is.
unfoldable pub fd_write :
    Outside → FileSystem → ℕ → Bytes → Db → FdTable → (Result WasiError ℕ × FdTable) × Db
fd_write o fs fd d db table = elim (get table fd >>= usable can_write) [
  | err e ↦ ((err e, table), db)
  | ok desc ↦ after_fd_write fd desc d table (write_file o fs desc.path d db)
]

unfoldable pub fd_seek : ℕ → ℤ → ℕ → FdTable → Result WasiError ℕ × FdTable
fd_seek fd offset whence table =
    need (get table fd) table λ d. let (r, d') = seek d offset whence in (r, update table fd d')

unfoldable pub fd_close : ℕ → FdTable → Result WasiError (Unit {0}) × FdTable
fd_close fd table = elim (close table fd) [ err e ↦ (err e, table) | ok table' ↦ (ok tt, table') ]

pub record FileStat : Type 0 where
  pub inode_id : ℕ
  pub size : ℕ
  pub is_directory : Bool
  pub is_symlink : Bool

abbrev pub is_link : InodeType → Bool
is_link symlink = true
is_link file = false
is_link dir = false

unfoldable pub path_stat : FileSystem → Bytes → Db → Result WasiError FileStat
path_stat fs path db = from_fs (stat fs path db) >>= λ r. ok (record {
  inode_id = r.inode_id;
  size = r.size;
  is_directory = is_dir r.inode_type;
  is_symlink = is_link r.inode_type;
})

abbrev pub done {ℓ} : {A : Type ℓ} → FsResult A × Db → Result WasiError (Unit {0}) × Db
done (ok a, db) = (ok tt, db)
done (err e, db) = (err (from_fs_error e), db)

unfoldable pub path_create_directory : FileSystem → Bytes → Db → Result WasiError (Unit {0}) × Db
path_create_directory fs path db = done (create_directory fs path db)

unfoldable pub path_remove_directory :
    (Bytes → Bytes → Bool) → FileSystem → Bytes → Db → Result WasiError (Unit {0}) × Db
path_remove_directory collate fs path db = done (remove_directory collate fs path db)

unfoldable pub path_unlink_file : FileSystem → Bytes → Db → Result WasiError (Unit {0}) × Db
path_unlink_file fs path db = done (delete_file fs path db)

pub record DirEntry : Type 0 where
  pub name : Bytes
  pub is_directory : Bool

abbrev pub dir_entry : Inode → DirEntry
dir_entry r = record { name = r.name; is_directory = is_dir r.inode_type }

abbrev pub opened_directory : FileDescriptor → Result WasiError FileDescriptor
opened_directory d = if not d.is_dir then err not_directory_error else ok d

unfoldable pub fd_readdir :
    (Bytes → Bytes → Bool) → FileSystem → ℕ → Db → FdTable → Result WasiError (List DirEntry)
fd_readdir collate fs fd db table = get table fd >>= opened_directory >>= λ d.
    from_fs (list_directory collate fs d.path db) >>= λ rows. ok (map dir_entry rows)

unfoldable pub fd_count : FdTable → ℕ
fd_count table = len table
