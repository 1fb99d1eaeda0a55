-- ===== src/Layer/Hooks.antt =====
-- src/layer/hooks.rs: the virtual files below `/.tarbox`, their attributes and the listings of
-- their directories.
use tarbox.Base.{
  ℕ, Bytes, bytes, bytes_eq, starts_with, Bool, true, false, Option, none, some, List, [], ◌∷◌,
  ◌++◌, map, if◌then◌else◌,
}
use tarbox.Storage.Models.{TenantId, Layer, Db}
use tarbox.Storage.Layers.{list_layers}
use tarbox.Layer.Manager.{LayerManagerError}
pub mod Listing
pub mod Files
pub mod Reading
pub mod Writing

abbrev pub tarbox_hook_path : Bytes
tarbox_hook_path = bytes "/.tarbox"

-- The constants of `paths`.
abbrev pub layers : Bytes
layers = bytes "/.tarbox/layers"

abbrev pub layers_current : Bytes
layers_current = bytes "/.tarbox/layers/current"

abbrev pub layers_list : Bytes
layers_list = bytes "/.tarbox/layers/list"

abbrev pub layers_new : Bytes
layers_new = bytes "/.tarbox/layers/new"

abbrev pub layers_switch : Bytes
layers_switch = bytes "/.tarbox/layers/switch"

abbrev pub layers_drop : Bytes
layers_drop = bytes "/.tarbox/layers/drop"

abbrev pub layers_tree : Bytes
layers_tree = bytes "/.tarbox/layers/tree"

abbrev pub layers_diff : Bytes
layers_diff = bytes "/.tarbox/layers/diff"

abbrev pub snapshots : Bytes
snapshots = bytes "/.tarbox/snapshots"

abbrev pub stats : Bytes
stats = bytes "/.tarbox/stats"

abbrev pub stats_usage : Bytes
stats_usage = bytes "/.tarbox/stats/usage"

-- `mode` in octal: 755, 444, 200.
pub record HookFileAttr : Type 0 where
  pub is_dir : Bool
  pub mode : ℕ
  pub size : ℕ

abbrev pub directory : HookFileAttr
directory = record { is_dir = true; mode = 493; size = 4096 }

abbrev pub readonly_file : HookFileAttr
readonly_file = record { is_dir = false; mode = 292; size = 0 }

abbrev pub writeonly_file : HookFileAttr
writeonly_file = record { is_dir = false; mode = 128; size = 0 }

unfoldable pub is_hook_path : Bytes → Bool
is_hook_path path = starts_with path tarbox_hook_path

-- The arms of a `match path { .. }` in their order: the first constant that the path is.
abbrev pub match_path {ℓ} : {A : Type ℓ} → Bytes → List (Bytes × A) → A → A
match_path path [] otherwise = otherwise
match_path path ((p, a) ∷ arms) otherwise =
    if bytes_eq path p then a else match_path path arms otherwise

unfoldable pub get_attr : Bytes → Option HookFileAttr
unfolding is_hook_path
get_attr path =
    if is_hook_path path
    then match_path path
        ((tarbox_hook_path, some directory)
          ∷ (layers, some directory)
          ∷ (layers_current, some readonly_file)
          ∷ (layers_list, some readonly_file)
          ∷ (layers_new, some writeonly_file)
          ∷ (layers_switch, some writeonly_file)
          ∷ (layers_drop, some writeonly_file)
          ∷ (layers_tree, some readonly_file)
          ∷ (layers_diff, some readonly_file)
          ∷ (snapshots, some directory)
          ∷ (stats, some directory)
          ∷ (stats_usage, some readonly_file)
          ∷ [])
        (if starts_with path snapshots then some directory else none)
    else none

pub data HookError : Type 0 where
  invalid_path permission_denied invalid_input internal : Bytes → HookError
  layer_error : LayerManagerError → HookError

pub data HookResult : Type 0 where
  content : Bytes → HookResult
  write_success : Bytes → HookResult
  error : HookError → HookResult
  not_a_hook : HookResult

-- `entries.join("\n")`
abbrev pub join_lines : List Bytes → Bytes
join_lines [] = []
join_lines (x ∷ []) = x
join_lines (x ∷ y ∷ ys) = x ++ bytes "\n" ++ join_lines (y ∷ ys)

-- The directories that `read_dir` lists, with the names in each.
abbrev pub listings : TenantId → Db → List (Bytes × Option (List Bytes))
listings t db =
    (tarbox_hook_path, some (bytes "layers" ∷ bytes "snapshots" ∷ bytes "stats" ∷ []))
    ∷ (
      layers,
      some (
          bytes "current"
          ∷ bytes "list"
          ∷ bytes "new"
          ∷ bytes "switch"
          ∷ bytes "drop"
          ∷ bytes "tree"
          ∷ bytes "diff"
          ∷ []),
    )
    ∷ (snapshots, some (map (λ (l : Layer). l.layer_name) (list_layers t db)))
    ∷ (stats, some (bytes "usage" ∷ []))
    ∷ []

unfoldable pub read_dir : TenantId → Db → Bytes → HookResult
unfolding is_hook_path
read_dir t db path =
    if is_hook_path path
    then elim (match_path path (listings t db) none) [
      | none ↦ error (invalid_path path)
      | some entries ↦ content (join_lines entries)
    ]
    else not_a_hook
