-- ===== src/Fuse/Adapter.antt =====
-- src/fuse/adapter.rs: the callbacks of the kernel, over any implementation of the interface. A
-- callback takes and returns the map of inodes and the state of the implementation; the lock around
-- the map is left out, since callbacks take `&mut self`. A time is its number of seconds.
pub mod Callbacks
mod Numbers
mod Sessions
pub mod Examples
use tarbox.Base.{
  ℕ, zero, suc, ◌+◌, ◌-◌, ◌/◌, ◌%◌, ◌^◌, ℤ, pos, negsuc, Bytes, bytes, bytes_eq, Bool, true, false,
  not, Option, none, some, List, [], ◌∷◌, ◌++◌, drop, ok, err, is_utf8, get_key, text_key,
  if◌then◌else◌,
}
use tarbox.Wasi.FdTable.{u64_mod}
use tarbox.Fuse.Interface.{
  Errno, enoent, einval, to_errno, FsResult, FileType, directory, FileAttr, DirEntry, SetAttr,
  StatFs, FilesystemInterface,
}
use tarbox.Fuse.InodeMap.{InodeMap, get_or_create, get_path, remove}

-- `fuser::FileAttr`, without the fields that are constant.
pub record FuseAttr : Type 0 where
  pub ino : ℕ
  pub size : ℕ
  pub blocks : ℕ
  pub atime : ℕ
  pub mtime : ℕ
  pub ctime : ℕ
  pub kind : FileType
  pub perm : ℕ
  pub nlink : ℕ
  pub uid : ℕ
  pub gid : ℕ

unfoldable pub to_fuse_attr : FileAttr → FuseAttr
to_fuse_attr a = record {
  ino = a.inode;
  size = a.size;
  blocks = (a.size + 511) / 512;
  atime = a.atime;
  mtime = a.mtime;
  ctime = a.ctime;
  kind = a.kind;
  perm = a.mode % 2 ^ 16;
  nlink = a.nlinks;
  uid = a.uid;
  gid = a.gid;
}

-- The arguments of `reply.add`.
pub record FuseEntry : Type 0 where
  pub ino : ℕ
  pub offset : ℕ
  pub kind : FileType
  pub name : Bytes

-- What is called on the reply object, which every callback does once.
pub data Reply : Type 0 where
  entry attr created : FuseAttr → Reply
  content : Bytes → Reply
  written : ℕ → Reply
  entries : List FuseEntry → Reply
  opened done : Reply
  stats : StatFs → Reply
  error : Errno → Reply

-- A time before 1970 is taken for 1970.
abbrev pub systemtime_to_datetime : ℤ → ℕ
systemtime_to_datetime (pos n) = n
systemtime_to_datetime (negsuc n) = 0

pub data TimeOrNow : Type 0 where
  specific_time : ℤ → TimeOrNow
  now : TimeOrNow

-- `t.map(..)`, with the time of the call.
abbrev pub time_of : ℕ → Option TimeOrNow → Option ℕ
time_of clock none = none
time_of clock (some (specific_time t)) = some (systemtime_to_datetime t)
time_of clock (some now) = some clock

-- `offset as u64`
abbrev pub as_u64 : ℤ → ℕ
as_u64 (pos n) = n
as_u64 (negsuc n) = u64_mod - suc n

unfoldable pub child_path : Bytes → Bytes → Bytes
child_path parent name =
    if bytes_eq parent (bytes "/") then bytes "/" ++ name else parent ++ bytes "/" ++ name

abbrev pub numbered : ℕ → FileAttr → FileAttr
numbered inode a = record a { inode = inode }

-- The loop that gives each entry of a directory its number.
unfoldable pub number_entries : Bytes → ℕ → List DirEntry → InodeMap → List FuseEntry × InodeMap
unfolding child_path
number_entries path i [] map = ([], map)
number_entries path i (e ∷ es) map =
    let (inode, map1) = get_or_create (child_path path e.name) map in
    let (rest, map2) = number_entries path (suc i) es map1 in
    (record { ino = inode; offset = suc i; kind = e.kind; name = e.name } ∷ rest, map2)

abbrev pub dots : ℕ → List FuseEntry
dots ino =
    record { ino = ino; offset = 1; kind = directory; name = bytes "." }
    ∷ record { ino = ino; offset = 2; kind = directory; name = bytes ".." }
    ∷ []

-- The loop that adds entries to the reply until it says that it is full; `full` is the buffer of the
-- kernel, given what it has and the next entry.
unfoldable pub fill :
    (List FuseEntry → FuseEntry → Bool) → List FuseEntry → List FuseEntry → List FuseEntry
fill full added [] = added
fill full added (e ∷ es) =
    let more = fill full (added ++ e ∷ []) es in if full added e then added else more
