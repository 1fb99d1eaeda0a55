-- ===== src/Fuse/Adapter/Numbers.antt =====
-- The numbers that replies show lead to the paths of what they name.
use tarbox.Base.{
  map, refl, ap, ℕ, suc, ◌+◌, ◌<◌, ◌≡◌, subst, inl, inr, ℤ, Bytes, Bool, some, List, [], ◌∷◌, ◌++◌,
  drop, length, ok, err, is_utf8, All, arith, Option-cases, Bool-cases,
}
use tarbox.Wasi.FdTable.{u64_mod}
use tarbox.Fuse.Interface.{FileAttr, DirEntry, FilesystemInterface, FsResult}
use tarbox.Fuse.InodeMap.{InodeMap, get_or_create, get_path}
use tarbox.Fuse.InodeMap.Inverse.{IsInverse, get_or_create-IsCreated}
use tarbox.Fuse.Adapter.{
  FuseAttr, FuseEntry, entry, entries, to_fuse_attr, child_path, dots, number_entries, fill, as_u64,
}
use tarbox.Fuse.Adapter.Callbacks.{reply_numbered, reply_entries, lookup, readdir}

-- Every number that led to a path still does.
abbrev pub Keeps : InodeMap → InodeMap → Type 0
Keeps m m' = (i : ℕ) (p : Bytes) → get_path i m ≡ some p → get_path i m' ≡ some p

-- A row of a listing leads to its name below the path.
abbrev pub Leads : Bytes → InodeMap → FuseEntry → Type 0
Leads path m e = get_path e.ino m ≡ some (child_path path e.name)

abbrev pub row_names : List FuseEntry → List Bytes
row_names es = map (λ (e : FuseEntry). e.name) es

abbrev pub listed_names : List DirEntry → List Bytes
listed_names es = map (λ (e : DirEntry). e.name) es

number_entries-Leads :
    (path : Bytes) (i : ℕ) (es : List DirEntry) (m : InodeMap)
    → IsInverse m
    → m.next_inode + length es < u64_mod
    → let (rows, m') = number_entries path i es m in
      (row_names rows ≡ listed_names es) × All (Leads path m') rows × Keeps m m' × IsInverse m'
unfolding number_entries
number_entries-Leads path i [] m v room = (refl, tt, λ j p h. h, v)
number_entries-Leads path i (e ∷ es) m v room =
    let c = get_or_create-IsCreated m v (child_path path e.name) (omega arith) in
    let (named, rows, kept, v') =
      number_entries-Leads path (suc i) es (get_or_create (child_path path e.name) m).1 c.inverse
        (omega (arith, c.counted)) in
    (ap (◌∷◌ e.name) named, (kept _ _ c.leads, rows), λ j p h. kept j p (c.kept j p h), v')

module _ {S : Type 0} (backend : FilesystemInterface S) (map : InodeMap) (s : S) where
  reply_numbered-Leads :
      (path : Bytes) (r : FsResult FileAttr × S) (a : FuseAttr) (map' : InodeMap) (s' : S)
      → IsInverse map
      → map.next_inode + 1 < u64_mod
      → reply_numbered backend entry path map r ≡ (entry a, map', s')
      → (get_path a.ino map' ≡ some path) × Keeps map map'
  unfolding reply_numbered to_fuse_attr
  reply_numbered-Leads path (err e, s) a map' s' v room h = cc
  reply_numbered-Leads path (ok b, s) a map' s' v room h =
      let c = get_or_create-IsCreated map v path room in
      let number : (get_or_create path map).0 ≡ a.ino = ground arith in
      let same : (get_or_create path map).1 ≡ map' = ground arith in
      subst (λ n. (get_path n map' ≡ some path) × Keeps map map') number
        (subst (λ m. (get_path (get_or_create path map).0 m ≡ some path) × Keeps map m) same
          (c.leads, c.kept))

  -- If the two maps are inverse to each other and fewer than 2^64 numbers are handed out, a lookup
  -- that replies with an entry found the path of its parent, and the number of the entry leads
  -- to the name below that path from then on; every number that led to a path still leads there.
  pub lookup-Leads :
      (parent : ℕ) (name : Bytes) (a : FuseAttr) (map' : InodeMap) (s' : S)
      → IsInverse map
      → map.next_inode + 1 < u64_mod
      → lookup backend parent name map s ≡ (entry a, map', s')
      → (path : Bytes) × (get_path parent map ≡ some path)
        × (get_path a.ino map' ≡ some (child_path path name))
        × Keeps map map'
  unfolding lookup
  lookup-Leads parent name a map' s' v room h = elim (Bool-cases (is_utf8 name)) [
    | inr e ↦ cc
    | inl e ↦ elim (Option-cases (get_path parent map)) [
      | inl q ↦ cc
      | inr (path, q) ↦
          let (leads, kept) =
            reply_numbered-Leads (child_path path name) (backend.get_attr (child_path path name) s)
              a map' s' v room (cc) in
          (path, q, leads, kept)
    ]
  ]

  -- If the two maps are inverse to each other and fewer than 2^64 numbers are handed out, a listing of
  -- a directory that has a path, whose entries the backend lists, consists of the two dots, which have the number of the
  -- directory, and one row for each entry that the backend lists, in its order and under its name, from
  -- the offset on and until the buffer is full. Afterwards the number of the directory leads to its
  -- path, the number of every row leads to its name below that path, as a lookup of the name does, and
  -- every number that led to a path still leads there.
  pub readdir-Leads :
      (full : List FuseEntry → FuseEntry → Bool) (ino : ℕ) (offset : ℤ) (path : Bytes)
      (es : List DirEntry) (s1 : S)
      → IsInverse map
      → map.next_inode + length es < u64_mod
      → get_path ino map ≡ some path
      → backend.read_dir path s ≡ (ok es, s1)
      → (rows : List FuseEntry) × (map' : InodeMap) × (readdir backend full ino offset map s
          ≡ (entries (fill full [] (drop (as_u64 offset) (dots ino ++ rows))), map', s1))
        × (row_names rows ≡ listed_names es)
        × (get_path ino map' ≡ some path)
        × All (Leads path map') rows
        × Keeps map map'
  unfolding readdir reply_entries
  readdir-Leads full ino offset path es s1 v room p r =
      let (named, rows, kept, _) = number_entries-Leads path 2 es map v room in
      (
        (number_entries path 2 es map).0,
        (number_entries path 2 es map).1,
        ground arith,
        named,
        kept ino path p,
        rows,
        kept,
      )
