-- ===== src/Layer/Hooks/Listing.antt =====
-- The listings of the virtual directories agree with the attributes of what they list.
use tarbox.Base.{
  ◌≡◌, refl, sym, Bytes, bytes, bytes_eq, bytes_eq_iff, true, Option, none, some, List, [], ◌∷◌,
  ◌++◌, starts_with, All, map, Bool-cases, Option-cases, subst, inl, inr, is_some,
}
use tarbox.Storage.Models.{TenantId, Layer, Db}
use tarbox.Storage.Layers.{list_layers}
use tarbox.Layer.Hooks.{
  match_path, get_attr, read_dir, listings, is_hook_path, snapshots, directory, invalid_path,
  content, error, join_lines,
}

-- The path of an entry has attributes.
abbrev pub HasAttr : Bytes → Bytes → Type 0
HasAttr path name = is_some (get_attr (path ++ bytes "/" ++ name)) ≡ true

-- Each name of a listing has attributes below its directory.
abbrev pub AreFound : Bytes → Option (List Bytes) → Type 0
AreFound path none = Unit
AreFound path (some names) = All (HasAttr path) names

snapshots-AreFound :
    (ls : List Layer) → All (HasAttr snapshots) (map (λ (l : Layer). l.layer_name) ls)
unfolding get_attr is_hook_path bytes_eq starts_with
snapshots-AreFound [] = tt
snapshots-AreFound (l ∷ ls) = (refl, snapshots-AreFound ls)

-- A match has what each of its arms has at its constant, and its last arm everywhere.
match_path_lem :
    (P : Bytes → Option (List Bytes) → Type 0) (path : Bytes) (otherwise : Option (List Bytes))
    (arms : List (Bytes × Option (List Bytes)))
    → P path otherwise
    → All (λ arm. P arm.0 arm.1) arms
    → P path (match_path path arms otherwise)
match_path_lem P path otherwise [] h all = h
match_path_lem P path otherwise ((p, a) ∷ arms) h all = elim (Bool-cases (bytes_eq path p)) [
  | inl e ↦ rw e (subst (λ q. P q a) (sym ((bytes_eq_iff path p).0 e)) all.0)
  | inr e ↦ rw e (match_path_lem P path otherwise arms h all.1)
]

listings-AreFound : (t : TenantId) (db : Db) → All (λ arm. AreFound arm.0 arm.1) (listings t db)
unfolding get_attr is_hook_path bytes_eq starts_with
listings-AreFound t db = (
  (refl, (refl, (refl, tt))),
  (
    (refl, (refl, (refl, (refl, (refl, (refl, (refl, tt))))))),
    (snapshots-AreFound (list_layers t db), ((refl, tt), tt)),
  ),
)

-- The content of a virtual directory is the names of entries joined by line feeds, and every entry
-- has attributes: the path of the directory, a slash and the name is a path that `get_attr` knows.
pub read_dir-HasAttr :
    (t : TenantId) (db : Db) (path text : Bytes)
    → read_dir t db path ≡ content text
    → (names : List Bytes) × (text ≡ join_lines names) × All (HasAttr path) names
unfolding read_dir
read_dir-HasAttr t db path text h = elim (Bool-cases (is_hook_path path)) [
  | inr e ↦ cc
  | inl e ↦ elim (Option-cases (match_path path (listings t db) none)) [
    | inl p ↦ cc
    | inr (names, p) ↦ (
      names,
      cc,
      subst (AreFound path) p
          (match_path_lem AreFound path none (listings t db) tt (listings-AreFound t db)),
    )
  ]
]

-- The path of a layer below the snapshots is a directory by its attributes, whatever the name of the
-- layer, and `read_dir` fails at it: only the constants are listed.
pub get_attr-snapshot :
    (t : TenantId) (db : Db) (name : Bytes)
    → (get_attr (snapshots ++ bytes "/" ++ name) ≡ some directory)
      × (read_dir t db (snapshots ++ bytes "/" ++ name)
          ≡ error (invalid_path (snapshots ++ bytes "/" ++ name)))
unfolding get_attr read_dir is_hook_path bytes_eq starts_with
get_attr-snapshot t db name = (refl, refl)
