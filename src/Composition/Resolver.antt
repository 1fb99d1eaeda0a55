-- ===== src/Composition/Resolver.antt =====
-- src/composition/resolver.rs and src/storage/models/mount_entry.rs: which mount a path belongs to,
-- and where its data is. `std::path::Path` compares paths by their components: the root is one,
-- empty ones do not count, and `.` counts only in front. A path that results is given by its
-- components; `MountEntry` is left without its two times, and its JSON is text.
mod Longest
mod Examples
use tarbox.Base.{
  ℕ, Bytes, bytes, bytes_eq, starts_with, Bool, true, false, not, ◌&&◌, ◌||◌, Option, none, some,
  List, [], ◌∷◌, ◌++◌, length, keep, Result, ok, err, ◌>>=◌, ltb, if◌then◌else◌,
}
use tarbox.Path.{parts, root}

abbrev pub Components : Type 0
Components = List Bytes

pub data MountSource : Type 0 where
  host : Bytes → MountSource
  layer : (source_mount_id : ℕ) → (layer_id : Option ℕ) → (subpath : Option Bytes) → MountSource
  published : (publish_name : Bytes) → (subpath : Option Bytes) → MountSource
  working_layer : MountSource

pub data MountMode : Type 0 where
  read_only read_write copy_on_write : MountMode

unfoldable pub parse_mode : Bytes → Option MountMode
parse_mode s =
    if bytes_eq s (bytes "ro")
    then some read_only
    else if bytes_eq s (bytes "rw")
    then some read_write
    else if bytes_eq s (bytes "cow")
    then some copy_on_write
    else none

unfoldable pub mode_as_str : MountMode → Bytes
mode_as_str read_only = bytes "ro"
mode_as_str read_write = bytes "rw"
mode_as_str copy_on_write = bytes "cow"

pub record MountEntry : Type 0 where
  pub mount_entry_id : ℕ
  pub tenant_id : ℕ
  pub name : Bytes
  pub virtual_path : Bytes
  pub source : MountSource
  pub mode : MountMode
  pub is_file : Bool
  pub enabled : Bool
  pub current_layer_id : Option ℕ
  pub metadata : Option Bytes

pub data ResolvedSource : Type 0 where
  host_file : Components → ResolvedSource
  layer_file : (tenant_id : ℕ) → (layer_id : ℕ) → Components → ResolvedSource
  working_file : Components → ResolvedSource

pub record ResolvedPath : Type 0 where
  pub mount_entry : MountEntry
  pub relative_path : Components
  pub source : ResolvedSource

-- The four messages, without the paths in them.
pub data ResolveError : Type 0 where
  path_exists : Bytes → ResolveError
  nested_under_existing : Bytes → Bytes → ResolveError
  existing_nested_under : Bytes → Bytes → ResolveError
  no_mount_found : Bytes → ResolveError
  resolution_error : ResolveError

abbrev pub not_dot : Bytes → Bool
not_dot c = not (bytes_eq c (bytes "."))

abbrev pub relative : Components → Components
relative [] = []
relative (c ∷ cs) = c ∷ keep not_dot cs

-- `path.components()`
unfoldable pub components : Bytes → Components
components p = if starts_with p root then root ∷ keep not_dot (parts p) else relative (parts p)

-- What is left of the second after the first, if that is a prefix.
unfoldable pub strip_prefix : Components → Components → Option Components
strip_prefix [] cs = some cs
strip_prefix (p ∷ ps) [] = none
strip_prefix (p ∷ ps) (c ∷ cs) =
    let rest = strip_prefix ps cs in if bytes_eq p c then rest else none

abbrev pub is_some_path : Option Components → Bool
is_some_path none = false
is_some_path (some cs) = true

-- `path.starts_with(prefix)` and `a == b` on paths.
unfoldable pub path_starts_with : Bytes → Bytes → Bool
unfolding components strip_prefix
path_starts_with p prefix = is_some_path (strip_prefix (components prefix) (components p))

abbrev pub is_nothing : Option Components → Bool
is_nothing (some []) = true
is_nothing (some (c ∷ cs)) = false
is_nothing none = false

unfoldable pub path_eq : Bytes → Bytes → Bool
unfolding components strip_prefix
path_eq a b = is_nothing (strip_prefix (components a) (components b))

abbrev pub is_root : Components → Bool
is_root [] = false
is_root (c ∷ cs) = bytes_eq c root

-- `a.join(b)`: an absolute `b` replaces `a`.
unfoldable pub join_path : Components → Components → Components
join_path a b = if is_root b then b else a ++ b

-- The first loop of `find_mount`.
unfoldable pub find_file : List MountEntry → Bytes → Option MountEntry
unfolding path_eq
find_file [] path = none
find_file (m ∷ ms) path =
    let rest = find_file ms path in
    if m.is_file && path_eq m.virtual_path path then some m else rest

abbrev pub covers : Bytes → MountEntry → Bool
covers path m = not m.is_file && path_starts_with path m.virtual_path

-- The second loop: the best match so far, and its length.
unfoldable pub find_directory : List MountEntry → Bytes → Option MountEntry → ℕ → Option MountEntry
find_directory [] path best best_len = best
find_directory (m ∷ ms) path best best_len =
    let longer = find_directory ms path (some m) (length m.virtual_path) in
    let same = find_directory ms path best best_len in
    if covers path m && ltb best_len (length m.virtual_path) then longer else same

unfoldable pub find_mount : List MountEntry → Bytes → Result ResolveError MountEntry
unfolding find_file find_directory
find_mount ms path = elim (find_file ms path) [
  | some m ↦ ok m
  | none ↦ elim (find_directory ms path none 0) [ some m ↦ ok m | none ↦ err (no_mount_found path) ]
]

abbrev pub below_subpath : Option Bytes → Components → Components
below_subpath none rel = rel
below_subpath (some sub) rel = join_path (components sub) rel

abbrev pub id_or_nil : Option ℕ → ℕ
id_or_nil none = 0
id_or_nil (some l) = l

-- `resolve_source`, with its placeholders: the nil UUID is 0.
abbrev pub source_of : Bool → MountSource → Components → ResolvedSource
source_of is_file (host p) rel =
    host_file (if is_file then components p else join_path (components p) rel)
source_of is_file (layer mount l sub) rel = layer_file 0 (id_or_nil l) (below_subpath sub rel)
source_of is_file (published name sub) rel = layer_file 0 0 (below_subpath sub rel)
source_of is_file working_layer rel = working_file rel

unfoldable pub relative_path : MountEntry → Bytes → Result ResolveError Components
relative_path m path =
    if m.is_file then ok [] else elim (strip_prefix (components m.virtual_path) (components path)) [
      | none ↦ err resolution_error
      | some rel ↦ ok rel
    ]

-- `resolve_path`
unfoldable pub resolve_mount : List MountEntry → Bytes → Result ResolveError ResolvedPath
unfolding find_mount relative_path
resolve_mount ms path = find_mount ms path >>= λ m. relative_path m path >>= λ rel.
    ok (record { mount_entry = m; relative_path = rel; source = source_of m.is_file m.source rel })

unfoldable pub validate_no_conflict :
    List MountEntry → Bytes → Bool → Result ResolveError (Unit {0})
validate_no_conflict [] new_path is_file = ok tt
validate_no_conflict (m ∷ ms) new_path is_file =
    let rest = validate_no_conflict ms new_path is_file in
    if path_eq m.virtual_path new_path
    then err (path_exists new_path)
    else if not is_file && (not m.is_file && path_starts_with new_path m.virtual_path)
    then err (nested_under_existing new_path m.virtual_path)
    else if not is_file && (not m.is_file && path_starts_with m.virtual_path new_path)
    then err (existing_nested_under m.virtual_path new_path)
    else rest
