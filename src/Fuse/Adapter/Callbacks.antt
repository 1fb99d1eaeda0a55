-- ===== src/Fuse/Adapter/Callbacks.antt =====
-- src/fuse/adapter.rs: the callbacks, each of which makes one reply.
use tarbox.Base.{
  ℕ, ℤ, Bytes, Bool, not, Option, none, some, List, [], ◌++◌, drop, ok, err, is_utf8, get_key,
  text_key, if◌then◌else◌,
}
use tarbox.Fuse.Interface.{
  enoent, einval, to_errno, FsResult, FileAttr, DirEntry, StatFs, FilesystemInterface,
}
use tarbox.Fuse.InodeMap.{InodeMap, get_or_create, get_path, remove}
use tarbox.Fuse.Adapter.{
  entry, attr, created, content, written, entries, opened, done, stats, error, FuseAttr,
  to_fuse_attr, FuseEntry, Reply, TimeOrNow, time_of, as_u64, child_path, numbered, number_entries,
  dots, fill,
}

module _ {S : Type 0} (backend : FilesystemInterface S) where
  abbrev pub Outcome : Type 0
  Outcome = Reply × InodeMap × S

  -- The path of a number, or ENOENT.
  abbrev pub at_path : ℕ → InodeMap → S → (Bytes → Outcome) → Outcome
  at_path ino map s k = elim (get_path ino map) [ none ↦ (error enoent, map, s) | some p ↦ k p ]

  -- The path of a name below a number; a name that is not UTF-8 is EINVAL.
  abbrev pub at_child : ℕ → Bytes → InodeMap → S → (Bytes → Outcome) → Outcome
  at_child parent name map s k =
      if not (is_utf8 name)
      then (error einval, map, s)
      else at_path parent map s λ p. k (child_path p name)

  -- A reply with the attributes of a path, under the number of the path.
  unfoldable pub reply_numbered :
      (FuseAttr → Reply) → Bytes → InodeMap → FsResult FileAttr × S → Outcome
  unfolding to_fuse_attr
  reply_numbered reply path map (err e, s) = (error (to_errno e), map, s)
  reply_numbered reply path map (ok a, s) =
      let (inode, map') = get_or_create path map in
      (reply (to_fuse_attr (numbered inode a)), map', s)

  abbrev pub reply_attr : ℕ → InodeMap → FsResult FileAttr × S → Outcome
  reply_attr ino map (err e, s) = (error (to_errno e), map, s)
  reply_attr ino map (ok a, s) = (attr (to_fuse_attr (numbered ino a)), map, s)

  -- A reply to a removal: the number of the path is forgotten.
  unfoldable pub reply_removed : Bytes → InodeMap → FsResult (Unit {0}) × S → Outcome
  reply_removed path map (err e, s) = (error (to_errno e), map, s)
  reply_removed path map (ok _, s) = elim (get_key path map.path_to_inode) [
    | none ↦ (done, map, s)
    | some inode ↦ (done, remove inode map, s)
  ]

  unfoldable pub lookup : ℕ → Bytes → InodeMap → S → Outcome
  unfolding reply_numbered child_path
  lookup parent name map s =
      at_child parent name map s λ path. reply_numbered entry path map (backend.get_attr path s)

  unfoldable pub getattr : ℕ → InodeMap → S → Outcome
  getattr ino map s = at_path ino map s λ path. reply_attr ino map (backend.get_attr path s)

  unfoldable pub setattr :
      ℕ
      → Option ℕ
      → Option ℕ
      → Option ℕ
      → Option ℕ
      → Option TimeOrNow
      → Option TimeOrNow
      → ℕ
      → InodeMap
      → S
      → Outcome
  setattr ino mode uid gid size atime mtime clock map s = at_path ino map s λ path.
      reply_attr ino map (
        backend.set_attr path
          (record {
            size = size;
            atime = time_of clock atime;
            mtime = time_of clock mtime;
            mode = mode;
            uid = uid;
            gid = gid;
          })
          s)

  abbrev pub reply_content : InodeMap → FsResult Bytes × S → Outcome
  reply_content map (err e, s) = (error (to_errno e), map, s)
  reply_content map (ok d, s) = (content d, map, s)

  unfoldable pub read : ℕ → ℤ → ℕ → InodeMap → S → Outcome
  read ino offset size map s =
      at_path ino map s λ path. reply_content map (backend.read_file path (as_u64 offset) size s)

  abbrev pub reply_written : InodeMap → FsResult ℕ × S → Outcome
  reply_written map (err e, s) = (error (to_errno e), map, s)
  reply_written map (ok n, s) = (written n, map, s)

  unfoldable pub write : ℕ → ℤ → Bytes → InodeMap → S → Outcome
  write ino offset d map s =
      at_path ino map s λ path. reply_written map (backend.write_file path (as_u64 offset) d s)

  unfoldable pub mkdir : ℕ → Bytes → ℕ → InodeMap → S → Outcome
  unfolding reply_numbered child_path
  mkdir parent name mode map s =
      at_child parent name map s
        λ path. reply_numbered entry path map (backend.create_dir path mode s)

  unfoldable pub rmdir : ℕ → Bytes → InodeMap → S → Outcome
  unfolding reply_removed child_path
  rmdir parent name map s =
      at_child parent name map s λ path. reply_removed path map (backend.remove_dir path s)

  unfoldable pub reply_entries :
      (List FuseEntry → FuseEntry → Bool)
      → ℕ
      → ℤ
      → Bytes
      → InodeMap
      → FsResult (List DirEntry) × S
      → Outcome
  unfolding number_entries fill
  reply_entries full ino offset path map (err e, s) = (error (to_errno e), map, s)
  reply_entries full ino offset path map (ok es, s) =
      let (rows, map') = number_entries path 2 es map in
      (entries (fill full [] (drop (as_u64 offset) (dots ino ++ rows))), map', s)

  unfoldable pub readdir : (List FuseEntry → FuseEntry → Bool) → ℕ → ℤ → InodeMap → S → Outcome
  unfolding reply_entries
  readdir full ino offset map s =
      at_path ino map s λ path. reply_entries full ino offset path map (backend.read_dir path s)

  unfoldable pub create : ℕ → Bytes → ℕ → InodeMap → S → Outcome
  unfolding reply_numbered child_path
  create parent name mode map s =
      at_child parent name map s
        λ path. reply_numbered created path map (backend.create_file path mode s)

  unfoldable pub unlink : ℕ → Bytes → InodeMap → S → Outcome
  unfolding reply_removed child_path
  unlink parent name map s =
      at_child parent name map s λ path. reply_removed path map (backend.delete_file path s)

  unfoldable pub open_file : ℕ → InodeMap → S → Outcome
  open_file ino map s = (opened, map, s)

  unfoldable pub release : ℕ → InodeMap → S → Outcome
  release ino map s = (done, map, s)

  abbrev pub reply_stats : InodeMap → FsResult StatFs × S → Outcome
  reply_stats map (err e, s) = (error (to_errno e), map, s)
  reply_stats map (ok r, s) = (stats r, map, s)

  unfoldable pub statfs : InodeMap → S → Outcome
  statfs map s = reply_stats map (backend.statfs s)
