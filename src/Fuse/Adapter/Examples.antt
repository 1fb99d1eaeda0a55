-- ===== src/Fuse/Adapter/Examples.antt =====
-- Callbacks over the file system of the sample database, on the virtual directories.
use tarbox.Base.{
  ◌+◌, ◌≡◌, refl, Bytes, bytes, bytes_eq, starts_with, is_utf8, get_key, insert_key, remove_key,
  number_key, text_key, ◌^◌, false, pos, List, [], ◌∷◌, some, All, arith, drop, ◌++◌,
}
use tarbox.Storage.Models.{Db}
use tarbox.Storage.Sample.{sample_db}
use tarbox.Layer.Lines.{lines}
use tarbox.Layer.Cow.Examples.{marks}
use tarbox.Layer.Hooks
use tarbox.Layer.Hooks.{is_hook_path}
use tarbox.Layer.Hooks.Writing.Examples.{printing}
use tarbox.Fuse.Interface.{FilesystemInterface, DirEntry, directory}
use tarbox.Fuse.InodeMap.{InodeMap, new_map, insert, get_or_create, get_path}
use tarbox.Fuse.InodeMap.Inverse.{IsInverse, new_map-IsCounted, get_or_create-IsCounted}
use tarbox.Fuse.Adapter.{FuseAttr, FuseEntry, entries, fill, dots, child_path, to_fuse_attr}
use tarbox.Fuse.Adapter.Callbacks.{lookup, readdir, reply_numbered}
use tarbox.Fuse.Adapter.Numbers.{lookup-Leads, readdir-Leads, Keeps, Leads, row_names, listed_names}
use tarbox.Fuse.Adapter.Sessions.{
  mounted, served, look_up, remove_dir, cost, serve, Session-IsInverse,
}
use tarbox.Fuse.Backend.{Outside, hook_entries, hook_attr_to_file_attr}
use tarbox.Fuse.Backend.Calls.{tarbox_backend, get_attr, read_dir}

abbrev pub outside : Outside
outside = record { cow = marks; hooks = printing; collate = λ a b. false; hash_path = λ p. 5 }

abbrev backend : FilesystemInterface Db
backend = tarbox_backend outside 7

-- The attributes of `/.tarbox`.
abbrev shown : FuseAttr
shown = record {
  ino = 2;
  size = 4096;
  blocks = 8;
  atime = 9;
  mtime = 9;
  ctime = 9;
  kind = directory;
  perm = 493;
  nlink = 1;
  uid = 0;
  gid = 0;
}

abbrev with_tarbox : InodeMap
with_tarbox = (get_or_create (bytes "/.tarbox") new_map).1

lookup-Leads_example :
    (path : Bytes) × (get_path 1 new_map ≡ some path)
    × (get_path 2 with_tarbox ≡ some (child_path path (bytes ".tarbox")))
    × Keeps new_map with_tarbox
unfolding lookup reply_numbered to_fuse_attr child_path get_or_create new_map insert get_key
    remove_key insert_key tarbox_backend get_attr Hooks.get_attr hook_attr_to_file_attr is_hook_path
    starts_with bytes_eq is_utf8 get_path
lookup-Leads_example =
    lookup-Leads backend new_map sample_db 1 (bytes ".tarbox") shown with_tarbox sample_db
      new_map-IsCounted.0 (omega arith) refl

abbrev names : List DirEntry
names =
    record { inode = 2 ^ 63 + 5; name = bytes "layers"; kind = directory }
    ∷ record { inode = 2 ^ 63 + 5; name = bytes "snapshots"; kind = directory }
    ∷ record { inode = 2 ^ 63 + 5; name = bytes "stats"; kind = directory }
    ∷ []

with_tarbox-IsInverse : IsInverse with_tarbox
with_tarbox-IsInverse =
    (get_or_create-IsCounted 0 new_map (bytes "/.tarbox") new_map-IsCounted (omega arith)).0

readdir-Leads_example :
    (rows : List FuseEntry) × (map' : InodeMap) × (readdir backend
        (λ added e. false)
        2
        (pos 1)
        with_tarbox
        sample_db
      ≡ (entries (fill (λ added e. false) [] (drop 1 (dots 2 ++ rows))), map', sample_db))
    × (row_names rows ≡ listed_names names)
    × (get_path 2 map' ≡ some (bytes "/.tarbox"))
    × All (Leads (bytes "/.tarbox") map') rows
    × Keeps with_tarbox map'
unfolding get_or_create new_map insert get_key remove_key insert_key tarbox_backend read_dir
    Hooks.read_dir hook_entries lines is_hook_path starts_with bytes_eq get_path
readdir-Leads_example =
    readdir-Leads backend with_tarbox sample_db (λ added e. false) 2 (pos 1) (bytes "/.tarbox")
      names sample_db with_tarbox-IsInverse (omega arith) refl refl

-- The map after a directory was looked up, and removed.
abbrev after_removal : InodeMap
after_removal =
    (serve backend (remove_dir 1 (bytes "d"))
      (serve backend (look_up 1 (bytes "d") 0) new_map sample_db).1
      (serve backend (look_up 1 (bytes "d") 0) new_map sample_db).2).1

Session-IsInverse_example : IsInverse after_removal
unfolding cost
Session-IsInverse_example =
    Session-IsInverse backend sample_db
      (served (served mounted (look_up 1 (bytes "d") 0)) (remove_dir 1 (bytes "d"))) (omega arith)
