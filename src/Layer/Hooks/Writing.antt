-- ===== src/Layer/Hooks/Writing.antt =====
-- src/layer/hooks.rs: what is done when a virtual file is written.
mod Switching
pub mod Examples
use tarbox.Base.{
  ℕ, zero, suc, ◌+◌, ℤ, pos, negsuc, Bytes, bytes, bytes_eq, Bool, true, false, not, Option, none,
  some, List, [], ◌∷◌, ◌++◌, map, keep, find, length, is_empty, is_some, is_utf8, starts_with, trim,
  decimal, strip_text, Result, ok, err, ◌==◌, if◌then◌else◌, add_ℤ,
}
use tarbox.Path.{split, slash}
use tarbox.Storage.Models.{
  TenantId, LayerId, Layer, LayerEntry, ChangeType, add, modify, delete, Db,
}
use tarbox.Storage.Layers.{list_layers, list_entries, get_current}
use tarbox.Layer.Manager.{
  LayerManagerError, no_current_layer, has_child_layers, historical_layer_needs_confirmation,
  LayerManagerResult, get_current_layer, create_checkpoint_with_confirm, switch_to_layer,
  delete_layer,
}
use tarbox.Layer.Hooks.{
  is_hook_path, match_path, read_dir, layers_current, layers_list, layers_new, layers_switch,
  layers_drop, layers_tree, layers_diff, snapshots, stats_usage, HookError, invalid_path,
  permission_denied, invalid_input, internal, layer_error, HookResult, content, write_success,
  error, not_a_hook,
}
use tarbox.Layer.Hooks.Files.{Outside, CreateLayerInput, SwitchLayerInput, DropLayerInput, named}

module _ (o : Outside) (t : TenantId) where
  abbrev pub as_input {ℓ} : {A : Type ℓ} → Result Bytes A → Result HookError A
  as_input (ok a) = ok a
  as_input (err e) = err (invalid_input (bytes "Invalid JSON: " ++ e))

  -- JSON if the input starts with a brace, and the text itself if not.
  abbrev pub parse_or {ℓ} : {A : Type ℓ} → (Bytes → Result Bytes A) → A → Bytes → Result HookError A
  parse_or parse plain input =
      if starts_with input (bytes "{") then as_input (parse input) else ok plain

  -- A name in messages, and the id behind it.
  abbrev pub with_id : Bytes → Bytes → LayerId → Bytes
  with_id text name l =
      text ++ bytes " layer '" ++ name ++ bytes "' (" ++ o.show_uuid l ++ bytes ")\n"

  -- The layers that would be deleted, one to a line.
  abbrev pub layer_lines : List Layer → Bytes
  layer_lines [] = []
  layer_lines (l ∷ ls) = bytes "  - " ++ l.layer_name ++ bytes "\n" ++ layer_lines ls

  abbrev pub warning : Bytes → LayerId → List Layer → Bytes
  warning name current later =
      bytes "Warning: You are at a historical layer ("
      ++ o.show_uuid current
      ++ bytes ").\nCreating a new layer will delete future layers:\n"
      ++ layer_lines later
      ++ bytes "\nTo proceed, write JSON with confirm flag:\n"
      ++ bytes "{\"name\": \""
      ++ name
      ++ bytes "\", \"confirm\": true}\n"

  abbrev pub new_outcome : Bytes → LayerManagerResult Layer × Db → HookResult × Db
  new_outcome name (ok l, db) =
      (write_success (with_id (bytes "Created") l.layer_name l.layer_id), db)
  new_outcome name (err (historical_layer_needs_confirmation l later), db) =
      (error (invalid_input (warning name l later)), db)
  new_outcome name (err e, db) = (error (layer_error e), db)

  unfoldable pub write_new_layer : Bytes → Db → HookResult × Db
  write_new_layer input db =
      elim (parse_or o.parse_create (record { name = input; description = none; confirm = false })
        input) [
          | err e ↦ (error e, db)
          | ok c ↦
              new_outcome c.name
                (create_checkpoint_with_confirm t c.name c.description c.confirm db)
        ]

  -- A UUID, or the name of a layer.
  abbrev pub layer_of : Bytes → Db → Result HookError LayerId
  layer_of layer_ref db = elim (o.parse_uuid layer_ref) [
    | some l ↦ ok l
    | none ↦ elim (find (named layer_ref) (list_layers t db)) [
      | some l ↦ ok l.layer_id
      | none ↦ err (invalid_input (bytes "Layer not found: " ++ layer_ref))
    ]
  ]

  abbrev pub switch_outcome : LayerId → LayerManagerResult Layer × Db → HookResult × Db
  switch_outcome l (ok r, db) = (write_success (with_id (bytes "Switched to") r.layer_name l), db)
  switch_outcome l (err e, db) = (error (layer_error e), db)

  unfoldable pub write_switch_layer : Bytes → Db → HookResult × Db
  write_switch_layer input db = elim (parse_or o.parse_switch (record { layer = input }) input) [
    | err e ↦ (error e, db)
    | ok s ↦ elim (layer_of s.layer db) [
      | err e ↦ (error e, db)
      | ok l ↦ switch_outcome l (switch_to_layer t l db)
    ]
  ]

  -- The same, where "current" is the current layer.
  abbrev pub dropped : Bytes → Db → Result HookError LayerId
  dropped layer_ref db =
      if bytes_eq layer_ref (bytes "current")
      then elim (get_current t db) [
        | some l ↦ ok l
        | none ↦ err (invalid_input (bytes "No current layer set"))
      ]
      else layer_of layer_ref db

  -- What is said of a layer that others follow.
  abbrev pub has_children : LayerId → Bytes → Bytes
  has_children l layer_ref =
      bytes "Layer "
      ++ o.show_uuid l
      ++ bytes " has child layers. Use {\"layer\": \""
      ++ layer_ref
      ++ bytes "\", \"force\": true} to delete anyway."

  abbrev pub drop_outcome : LayerId → Bytes → LayerManagerResult (Unit {0}) × Db → HookResult × Db
  drop_outcome l layer_ref (ok _, db) =
      (write_success (bytes "Deleted layer " ++ o.show_uuid l ++ bytes "\n"), db)
  drop_outcome l layer_ref (err (has_child_layers c), db) =
      (error (invalid_input (has_children c layer_ref)), db)
  drop_outcome l layer_ref (err e, db) = (error (layer_error e), db)

  -- The flag `force` is read and not used.
  unfoldable pub write_drop_layer : Bytes → Db → HookResult × Db
  write_drop_layer input db =
      elim (parse_or o.parse_drop (record { layer = input; force = false }) input) [
        | err e ↦ (error e, db)
        | ok d ↦ elim (dropped d.layer db) [
          | err e ↦ (error e, db)
          | ok l ↦ drop_outcome l d.layer (delete_layer t l db)
        ]
      ]

  unfoldable pub handle_write : Bytes → Bytes → Db → HookResult × Db
  unfolding is_hook_path write_new_layer write_switch_layer write_drop_layer
  handle_write path d db =
      if not (is_hook_path path)
      then (not_a_hook, db)
      else if not (is_utf8 d)
      then (error (invalid_input (bytes "Input must be valid UTF-8")), db)
      else match_path path
          ((layers_new, write_new_layer (trim d) db)
            ∷ (layers_switch, write_switch_layer (trim d) db)
            ∷ (layers_drop, write_drop_layer (trim d) db)
            ∷ [])
          (error (permission_denied (bytes "Cannot write to " ++ path)), db)
