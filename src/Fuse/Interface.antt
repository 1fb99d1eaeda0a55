-- ===== src/Fuse/Interface.antt =====
-- src/fuse/interface.rs: what a front end asks of the file system. The trait is a record of
-- functions over the state `S` of its implementation. The constants of libc are constructors.
use tarbox.Base.{ℕ, Bytes, Option, List, Result}

pub data FsError : Type 0 where
  path_not_found already_exists not_directory is_directory directory_not_empty : Bytes → FsError
  invalid_path permission_denied not_supported io_error : Bytes → FsError

abbrev pub FsResult {ℓ} : Type ℓ → Type ℓ
FsResult A = Result FsError A

-- The constants of the crate libc that are used.
pub data Errno : Type 0 where
  enoent eexist enotdir eisdir enotempty einval eacces enosys eio : Errno

unfoldable pub to_errno : FsError → Errno
to_errno (path_not_found _) = enoent
to_errno (already_exists _) = eexist
to_errno (not_directory _) = enotdir
to_errno (is_directory _) = eisdir
to_errno (directory_not_empty _) = enotempty
to_errno (invalid_path _) = einval
to_errno (permission_denied _) = eacces
to_errno (not_supported _) = enosys
to_errno (io_error _) = eio

pub data FileType : Type 0 where
  regular_file directory symlink : FileType

pub record FileAttr : Type 0 where
  pub inode : ℕ
  pub kind : FileType
  pub size : ℕ
  pub atime : ℕ
  pub mtime : ℕ
  pub ctime : ℕ
  pub mode : ℕ
  pub uid : ℕ
  pub gid : ℕ
  pub nlinks : ℕ

pub record DirEntry : Type 0 where
  pub inode : ℕ
  pub name : Bytes
  pub kind : FileType

pub record SetAttr : Type 0 where
  pub size : Option ℕ
  pub atime : Option ℕ
  pub mtime : Option ℕ
  pub mode : Option ℕ
  pub uid : Option ℕ
  pub gid : Option ℕ

pub record StatFs : Type 0 where
  pub blocks : ℕ
  pub bfree : ℕ
  pub bavail : ℕ
  pub files : ℕ
  pub ffree : ℕ
  pub bsize : ℕ
  pub namelen : ℕ

-- The operations without a default. What an operation leaves of the state is its second result.
pub record FilesystemInterface (S : Type 0) : Type 0 where
  pub read_file : Bytes → ℕ → ℕ → S → FsResult Bytes × S
  pub write_file : Bytes → ℕ → Bytes → S → FsResult ℕ × S
  pub create_file : Bytes → ℕ → S → FsResult FileAttr × S
  pub delete_file : Bytes → S → FsResult (Unit {0}) × S
  pub truncate : Bytes → ℕ → S → FsResult (Unit {0}) × S
  pub create_dir : Bytes → ℕ → S → FsResult FileAttr × S
  pub read_dir : Bytes → S → FsResult (List DirEntry) × S
  pub remove_dir : Bytes → S → FsResult (Unit {0}) × S
  pub get_attr : Bytes → S → FsResult FileAttr × S
  pub set_attr : Bytes → SetAttr → S → FsResult FileAttr × S
  pub chmod : Bytes → ℕ → S → FsResult (Unit {0}) × S
  pub chown : Bytes → ℕ → ℕ → S → FsResult (Unit {0}) × S
  pub statfs : S → FsResult StatFs × S
