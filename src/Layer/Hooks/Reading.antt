-- ===== src/Layer/Hooks/Reading.antt =====
-- src/layer/hooks.rs: what the virtual files hold.
use tarbox.Base.{
  ℕ, ◌+◌, ℤ, pos, Bytes, bytes, Bool, true, false, not, Option, none, some, List, [], ◌∷◌, ◌++◌,
  map, keep, find, length, is_empty, is_some, starts_with, decimal, strip_text, Result, ok, err,
  ◌==◌, if◌then◌else◌, add_ℤ,
}
use tarbox.Path.{split, slash}
use tarbox.Storage.Models.{
  TenantId, LayerId, Layer, LayerEntry, ChangeType, add, modify, delete, Db,
}
use tarbox.Storage.Layers.{list_layers, list_entries, get_current}
use tarbox.Layer.Manager.{no_current_layer, get_current_layer}
use tarbox.Layer.Hooks.{
  is_hook_path, match_path, read_dir, layers_current, layers_list, layers_tree, layers_diff,
  snapshots, stats_usage, invalid_path, internal, layer_error, HookResult, content, error,
  not_a_hook,
}
use tarbox.Layer.Hooks.Files.{Outside, LayerInfo, named}

-- `current_id.map(|id| id == l.layer_id).unwrap_or(false)`
abbrev pub is_current : Option LayerId → Layer → Bool
is_current none l = false
is_current (some id) l = id == l.layer_id

-- `Ok(json)` and `Err(e)` of the printing.
abbrev pub printed : Result Bytes Bytes → HookResult
printed (ok json) = content json
printed (err e) = error (internal e)

abbrev pub sum_files : List Layer → ℕ
sum_files [] = 0
sum_files (l ∷ ls) = l.file_count + sum_files ls

abbrev pub has_parent : Layer → Bool
has_parent l = is_some l.parent_layer_id

-- A stable sort by `parent_layer_id.is_some()`.
abbrev pub roots_first : List Layer → List Layer
roots_first ls = keep (λ l. not (has_parent l)) ls ++ keep has_parent ls

-- `├─ ` in UTF-8.
abbrev pub branch_mark : Bytes
branch_mark = 0xe2 ∷ 0x94 ∷ 0x9c ∷ 0xe2 ∷ 0x94 ∷ 0x80 ∷ 0x20 ∷ []

abbrev pub tree_line : Option LayerId → Layer → Bytes
tree_line current l =
    (if has_parent l then branch_mark else [])
    ++ l.layer_name
    ++ (if is_current current l then bytes " [current]" else [])
    ++ bytes "\n"

abbrev pub concat_lines {ℓ} : {A : Type ℓ} → (A → Bytes) → List A → Bytes
concat_lines line [] = []
concat_lines line (x ∷ xs) = line x ++ concat_lines line xs

abbrev pub change_char : ChangeType → Bytes
change_char add = bytes "A"
change_char modify = bytes "M"
change_char delete = bytes "D"

abbrev pub diff_line : LayerEntry → Bytes
diff_line e = change_char e.change_type ++ bytes "  " ++ e.path ++ bytes "\n"

-- `suffix.trim_start_matches('/')`
abbrev pub without_slashes : Bytes → Bytes
without_slashes [] = []
without_slashes (x ∷ xs) = let rest = without_slashes xs in if x == slash then rest else x ∷ xs

abbrev pub or_empty : Option Bytes → Bytes
or_empty none = []
or_empty (some s) = s

abbrev pub first_of : List Bytes → Bytes
first_of [] = []
first_of (p ∷ ps) = p

module _ (o : Outside) (t : TenantId) where
  unfoldable pub from_layer : Layer → Bool → LayerInfo
  from_layer l current = record {
    layer_id = o.show_uuid l.layer_id;
    name = l.layer_name;
    parent_id = elim l.parent_layer_id [ none ↦ none | some p ↦ some (o.show_uuid p) ];
    created_at = o.created_at l.layer_id;
    is_readonly = l.is_readonly;
    is_current = current;
    file_count = l.file_count;
    total_size = o.total_size l.layer_id;
    description = l.description;
  }

  unfoldable pub read_current_layer : Db → HookResult
  unfolding from_layer
  read_current_layer db = elim (get_current_layer t db) [
    | ok l ↦ printed (o.print_info (from_layer l true))
    | err no_current_layer ↦ content (bytes "No current layer set\n")
    | err e ↦ error (layer_error e)
  ]

  unfoldable pub read_layer_list : Db → HookResult
  unfolding from_layer
  read_layer_list db = printed (
      o.print_infos
        (map (λ (l : Layer). from_layer l (is_current (get_current t db) l)) (list_layers t db)))

  unfoldable pub read_layer_tree : Db → HookResult
  read_layer_tree db =
      content (concat_lines (tree_line (get_current t db)) (roots_first (list_layers t db)))

  abbrev pub diff_text : Layer → List LayerEntry → Bytes
  diff_text l entries =
      bytes "Layer: "
      ++ l.layer_name
      ++ bytes " ("
      ++ o.show_uuid l.layer_id
      ++ bytes ")\nChanges: "
      ++ decimal (length entries)
      ++ bytes " files\n\n"
      ++ concat_lines diff_line entries

  unfoldable pub read_current_diff : Db → HookResult
  read_current_diff db = elim (get_current_layer t db) [
    | ok l ↦ content (diff_text l (list_entries t l.layer_id db))
    | err no_current_layer ↦ content (bytes "No current layer set\n")
    | err e ↦ error (layer_error e)
  ]

  abbrev pub sum_sizes : List Layer → ℤ
  sum_sizes [] = pos 0
  sum_sizes (l ∷ ls) = add_ℤ (o.total_size l.layer_id) (sum_sizes ls)

  unfoldable pub read_stats_usage : Db → HookResult
  read_stats_usage db =
      let ls = list_layers t db in
      printed (
        o.print_usage (record {
          layer_count = length ls;
          total_size = sum_sizes ls;
          total_files = sum_files ls;
          tenant_id = o.show_uuid t;
        }))

  unfoldable pub handle_snapshot_read : Db → Bytes → HookResult
  unfolding from_layer
  handle_snapshot_read db path =
      let name = first_of (split slash (without_slashes (or_empty (strip_text snapshots path)))) in
      if is_empty name
      then read_dir t db snapshots
      else elim (find (named name) (list_layers t db)) [
        | none ↦ error (invalid_path (bytes "Layer not found: " ++ name))
        | some l ↦ printed (o.print_info (from_layer l false))
      ]

  unfoldable pub handle_read : Db → Bytes → HookResult
  unfolding is_hook_path read_current_layer read_layer_list read_layer_tree read_current_diff
      read_stats_usage handle_snapshot_read
  handle_read db path =
      if not (is_hook_path path)
      then not_a_hook
      else match_path path
          ((layers_current, read_current_layer db)
            ∷ (layers_list, read_layer_list db)
            ∷ (layers_tree, read_layer_tree db)
            ∷ (layers_diff, read_current_diff db)
            ∷ (stats_usage, read_stats_usage db)
            ∷ [])
          (if starts_with path snapshots
            then handle_snapshot_read db path
            else error (invalid_path path))
