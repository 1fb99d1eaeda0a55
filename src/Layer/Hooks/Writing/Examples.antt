-- ===== src/Layer/Hooks/Writing/Examples.antt =====
-- Switching to the base layer by its name.
use tarbox.Base.{bytes, decimal, pos, none, some, [], ◌∷◌, ok, true, false}
use tarbox.Storage.Models.{Layer, Db}
use tarbox.Storage.Sample.{sample_db, sample_layer}
use tarbox.Layer.Hooks.Files.{Outside}

-- JSON is not printed, and any JSON asks to drop the layer `base` by force.
abbrev pub printing : Outside
printing = record {
  show_uuid = decimal;
  parse_uuid = λ s. none;
  created_at = λ l. [];
  total_size = λ l. pos 0;
  print_info = λ i. ok [];
  print_infos = λ is. ok [];
  print_usage = λ u. ok [];
  parse_create = λ s. ok (record { name = s; description = none; confirm = false });
  parse_switch = λ s. ok (record { layer = s });
  parse_drop = λ s. ok (record { layer = bytes "base"; force = true });
}

abbrev over : Layer
over = record sample_layer { layer_id = 24; parent_layer_id = some 20; layer_name = bytes "next" }

abbrev stacked : Db
stacked = record sample_db { layers = sample_layer ∷ over ∷ []; current = (7, 24) ∷ [] }
