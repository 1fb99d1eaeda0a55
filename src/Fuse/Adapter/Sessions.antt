-- ===== src/Fuse/Adapter/Sessions.antt =====
-- The map of inodes along any sequence of callbacks.
use tarbox.Base.{
  ℕ, suc, ◌+◌, ◌<◌, ◌≡◌, sym, ◌∙◌, subst, ℤ, Bytes, Bool, Option, none, some, List, [], ◌∷◌, length,
  ok, err, is_utf8, get_key, text_key, arith, Option-cases, Bool-cases, inl, inr,
}
use mathlib.Core.Option.{some-injective}
use native.Mathlib.Numerals.{one-add}
use tarbox.Wasi.FdTable.{u64_mod}
use tarbox.Fuse.Interface.{FileAttr, DirEntry, StatFs, FilesystemInterface, FsResult}
use tarbox.Fuse.InodeMap.{InodeMap, new_map, get_or_create, get_path, remove}
use tarbox.Fuse.InodeMap.Inverse.{
  IsInverse, IsCounted, new_map-IsCounted, get_or_create-IsCounted, remove-IsCounted,
}
use tarbox.Fuse.Adapter.{
  FuseAttr, FuseEntry, Reply, entry, created, TimeOrNow, as_u64, child_path, number_entries,
}
use tarbox.Fuse.Adapter.Callbacks.{
  Outcome, reply_attr, reply_content, reply_written, reply_stats, at_path, at_child, reply_numbered,
  reply_removed, reply_entries, lookup, getattr, setattr, read, write, mkdir, rmdir, readdir,
  create, unlink, open_file, release, statfs,
}

-- A callback with its arguments.
pub data Request : Type 0 where
  look_up make_dir make_file : ℕ → Bytes → ℕ → Request
  remove_dir remove_file : ℕ → Bytes → Request
  get_attributes open_it release_it : ℕ → Request
  set_attributes :
      ℕ
      → Option ℕ
      → Option ℕ
      → Option ℕ
      → Option ℕ
      → Option TimeOrNow
      → Option TimeOrNow
      → ℕ
      → Request
  read_data : ℕ → ℤ → ℕ → Request
  write_data : ℕ → ℤ → Bytes → Request
  list_dir : (List FuseEntry → FuseEntry → Bool) → ℕ → ℤ → Request
  file_system_stats : Request

module _ {S : Type 0} where
  abbrev listed : FsResult (List DirEntry) × S → ℕ
  listed (ok es, _) = length es
  listed (err _, _) = 0

module _ {S : Type 0} (backend : FilesystemInterface S) where
  unfoldable pub serve : Request → InodeMap → S → Reply × InodeMap × S
  serve (look_up parent name _) map s = lookup backend parent name map s
  serve (make_dir parent name mode) map s = mkdir backend parent name mode map s
  serve (make_file parent name mode) map s = create backend parent name mode map s
  serve (remove_dir parent name) map s = rmdir backend parent name map s
  serve (remove_file parent name) map s = unlink backend parent name map s
  serve (get_attributes ino) map s = getattr backend ino map s
  serve (open_it ino) map s = open_file backend ino map s
  serve (release_it ino) map s = release backend ino map s
  serve (set_attributes ino mode uid gid size atime mtime clock) map s =
      setattr backend ino mode uid gid size atime mtime clock map s
  serve (read_data ino offset size) map s = read backend ino offset size map s
  serve (write_data ino offset d) map s = write backend ino offset d map s
  serve (list_dir full ino offset) map s = readdir backend full ino offset map s
  serve file_system_stats map s = statfs backend map s

  -- How many numbers a callback may hand out: one for each entry of a listing, and one at most for
  -- any other.
  unfoldable pub cost : Request → InodeMap → S → ℕ
  cost (list_dir full ino offset) map s = elim (get_path ino map) [
    | none ↦ 0
    | some path ↦ listed (backend.read_dir path s)
  ]
  cost _ map s = 1

  -- The maps and states that callbacks lead to, with a bound on the numbers handed out.
  pub data Session (s0 : S) : ℕ → InodeMap → S → Type 0 where
    mounted : Session s0 0 new_map s0
    served :
        {n : ℕ} {map : InodeMap} {s : S}
        → Session s0 n map s
        → (r : Request) → Session s0 (cost r map s + n) (serve r map s).1 (serve r map s).2

  more : (k n : ℕ) (m : InodeMap) → IsCounted n m → IsCounted (k + n) m
  more k n m (v, le) = (v, omega arith)

  reply_numbered-IsCounted :
      (reply : FuseAttr → Reply) (path : Bytes) (n : ℕ) (map : InodeMap) (r : FsResult FileAttr × S)
      → IsCounted n map
      → n + 3 < u64_mod
      → IsCounted (1 + n) (reply_numbered backend reply path map r).1
  unfolding reply_numbered
  reply_numbered-IsCounted reply path n map (err e, s) c room = more 1 n map c
  reply_numbered-IsCounted reply path n map (ok a, s) c room =
      rw one-add (get_or_create-IsCounted n map path c room)

  reply_removed-IsCounted :
      (path : Bytes) (n : ℕ) (map : InodeMap) (r : FsResult (Unit {0}) × S)
      → IsCounted n map
      → IsCounted (1 + n) (reply_removed backend path map r).1
  unfolding reply_removed
  reply_removed-IsCounted path n map (err e, s) c = more 1 n map c
  reply_removed-IsCounted path n map (ok u, s) c =
      elim (Option-cases (get_key path map.path_to_inode)) [
        | inl e ↦ rw (e, reply_removed) (more 1 n map c)
        | inr (i, e) ↦ rw (e, reply_removed) (more 1 n (remove i map) (remove-IsCounted n map i c))
      ]

  number_entries-IsCounted :
      (path : Bytes) (i n : ℕ) (es : List DirEntry) (map : InodeMap)
      → IsCounted n map
      → length es + n + 2 < u64_mod
      → IsCounted (length es + n) (number_entries path i es map).1
  unfolding number_entries
  number_entries-IsCounted path i n [] map c room = more 0 n map c
  number_entries-IsCounted path i n (e ∷ es) map c room =
      subst (λ k. IsCounted k (number_entries path i (e ∷ es) map).1) (omega arith)
        (number_entries-IsCounted path (suc i) (suc n) es
          (get_or_create (child_path path e.name) map).1
          (get_or_create-IsCounted n map (child_path path e.name) c (omega arith)) (omega arith))

  at_path-IsCounted :
      (ino n k : ℕ) (map : InodeMap) (s : S) (next : Bytes → Outcome backend)
      → IsCounted n map
      → ((path : Bytes) → get_path ino map ≡ some path → IsCounted (k + n) (next path).1)
      → IsCounted (k + n) (at_path backend ino map s next).1
  at_path-IsCounted ino n k map s next c step = elim (Option-cases (get_path ino map)) [
    | inl e ↦ rw (e, at_path) (more k n map c)
    | inr (path, e) ↦ rw (e, at_path) (step path e)
  ]

  at_child-IsCounted :
      (parent n : ℕ) (name : Bytes) (map : InodeMap) (s : S) (next : Bytes → Outcome backend)
      → IsCounted n map
      → ((path : Bytes) → IsCounted (1 + n) (next path).1)
      → IsCounted (1 + n) (at_child backend parent name map s next).1
  at_child-IsCounted parent n name map s next c step = elim (Bool-cases (is_utf8 name)) [
    | inr e ↦ rw e (more 1 n map c)
    | inl e ↦ rw e (
        at_path-IsCounted parent n 1 map s (λ p. next (child_path p name)) c
          (λ p _. step (child_path p name)))
  ]

  reply_attr-IsCounted :
      (ino n : ℕ) (map : InodeMap) (r : FsResult FileAttr × S)
      → IsCounted n map
      → IsCounted (1 + n) (reply_attr backend ino map r).1
  reply_attr-IsCounted ino n map (err e, s) c = more 1 n map c
  reply_attr-IsCounted ino n map (ok a, s) c = more 1 n map c

  reply_content-IsCounted :
      (n : ℕ) (map : InodeMap) (r : FsResult Bytes × S)
      → IsCounted n map
      → IsCounted (1 + n) (reply_content backend map r).1
  reply_content-IsCounted n map (err e, s) c = more 1 n map c
  reply_content-IsCounted n map (ok a, s) c = more 1 n map c

  reply_written-IsCounted :
      (n : ℕ) (map : InodeMap) (r : FsResult ℕ × S)
      → IsCounted n map
      → IsCounted (1 + n) (reply_written backend map r).1
  reply_written-IsCounted n map (err e, s) c = more 1 n map c
  reply_written-IsCounted n map (ok a, s) c = more 1 n map c

  reply_stats-IsCounted :
      (n : ℕ) (map : InodeMap) (r : FsResult StatFs × S)
      → IsCounted n map
      → IsCounted (1 + n) (reply_stats backend map r).1
  reply_stats-IsCounted n map (err e, s) c = more 1 n map c
  reply_stats-IsCounted n map (ok a, s) c = more 1 n map c

  reply_entries-IsCounted :
      (full : List FuseEntry → FuseEntry → Bool) (ino : ℕ) (offset : ℤ) (path : Bytes) (n : ℕ)
      (map : InodeMap) (r : FsResult (List DirEntry) × S)
      → IsCounted n map
      → listed r + n + 2 < u64_mod
      → IsCounted (listed r + n) (reply_entries backend full ino offset path map r).1
  unfolding reply_entries
  reply_entries-IsCounted full ino offset path n map (err e, s) c room = more 0 n map c
  reply_entries-IsCounted full ino offset path n map (ok es, s) c room =
      number_entries-IsCounted path 2 n es map c room

  serve-IsCounted :
      (r : Request) (n : ℕ) (map : InodeMap) (s : S)
      → IsCounted n map
      → cost r map s + n + 2 < u64_mod
      → IsCounted (cost r map s + n) (serve r map s).1
  unfolding serve cost lookup mkdir create rmdir unlink getattr setattr read write open_file release
      statfs readdir reply_entries
  serve-IsCounted (look_up parent name _) n map s c room =
      at_child-IsCounted parent n name map s
        (λ p. reply_numbered backend entry p map (backend.get_attr p s)) c
        (λ p. reply_numbered-IsCounted entry p n map (backend.get_attr p s) c (omega arith))
  serve-IsCounted (make_dir parent name mode) n map s c room =
      at_child-IsCounted parent n name map s
        (λ p. reply_numbered backend entry p map (backend.create_dir p mode s)) c
        (λ p. reply_numbered-IsCounted entry p n map (backend.create_dir p mode s) c (omega arith))
  serve-IsCounted (make_file parent name mode) n map s c room =
      at_child-IsCounted parent n name map s
        (λ p. reply_numbered backend created p map (backend.create_file p mode s)) c
        (λ p.
          reply_numbered-IsCounted created p n map (backend.create_file p mode s) c (omega arith))
  serve-IsCounted (remove_dir parent name) n map s c room =
      at_child-IsCounted parent n name map s
        (λ p. reply_removed backend p map (backend.remove_dir p s)) c
        (λ p. reply_removed-IsCounted p n map (backend.remove_dir p s) c)
  serve-IsCounted (remove_file parent name) n map s c room =
      at_child-IsCounted parent n name map s
        (λ p. reply_removed backend p map (backend.delete_file p s)) c
        (λ p. reply_removed-IsCounted p n map (backend.delete_file p s) c)
  serve-IsCounted (open_it ino) n map s c room = more 1 n map c
  serve-IsCounted (release_it ino) n map s c room = more 1 n map c
  serve-IsCounted (get_attributes ino) n map s c room =
      at_path-IsCounted ino n 1 map s _ c
        (λ p _. reply_attr-IsCounted ino n map (backend.get_attr p s) c)
  serve-IsCounted (set_attributes ino mode uid gid size atime mtime clock) n map s c room =
      at_path-IsCounted ino n 1 map s _ c (λ p _. reply_attr-IsCounted ino n map _ c)
  serve-IsCounted (read_data ino offset size) n map s c room =
      at_path-IsCounted ino n 1 map s _ c
        (λ p _. reply_content-IsCounted n map (backend.read_file p (as_u64 offset) size s) c)
  serve-IsCounted (write_data ino offset d) n map s c room =
      at_path-IsCounted ino n 1 map s _ c
        (λ p _. reply_written-IsCounted n map (backend.write_file p (as_u64 offset) d s) c)
  serve-IsCounted file_system_stats n map s c room =
      reply_stats-IsCounted n map (backend.statfs s) c
  serve-IsCounted (list_dir full ino offset) n map s c room =
      elim (Option-cases (get_path ino map)) [
        | inl e ↦
            let nothing : cost (list_dir full ino offset) map s ≡ 0 = rw (e, cost) in
            rw nothing (at_path-IsCounted ino n 0 map s _ c (λ p q. cc))
        | inr (path, e) ↦
            let listing : cost (list_dir full ino offset) map s ≡ listed (backend.read_dir path s) =
              rw (e, cost) in
            rw listing (
              at_path-IsCounted ino n (listed (backend.read_dir path s)) map s _ c (λ p q.
                let same : path ≡ p = some-injective path p (sym e ∙ q) in
                subst
                  (λ x.
                    IsCounted (listed (backend.read_dir path s) + n)
                      (reply_entries backend full ino offset x map (backend.read_dir x s)).1)
                  same
                  (reply_entries-IsCounted full ino offset path n map (backend.read_dir path s) c
                    (omega (arith, listing)))))
      ]

Session-IsCounted :
    {S : Type 0} (backend : FilesystemInterface S) (s0 : S) {n : ℕ} {map : InodeMap} {s : S}
    → Session backend s0 n map s
    → n + 2 < u64_mod
    → IsCounted n map
Session-IsCounted backend s0 mounted room = new_map-IsCounted
Session-IsCounted backend s0 (served {n} {map} {s} h r) room =
    serve-IsCounted backend r n map s (Session-IsCounted backend s0 h (omega arith)) room

-- However callbacks follow one another, the two maps are inverse to each other, and no number above
-- the counter is in use, as long as fewer than 2^64 numbers are handed out: a number leads to a path
-- exactly if the path leads to the number.
pub Session-IsInverse :
    {S : Type 0} (backend : FilesystemInterface S) (s0 : S) {n : ℕ} {map : InodeMap} {s : S}
    → Session backend s0 n map s
    → n + 2 < u64_mod
    → IsInverse map
Session-IsInverse backend s0 h room = (Session-IsCounted backend s0 h room).0
