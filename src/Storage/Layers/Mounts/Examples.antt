-- ===== src/Storage/Layers/Mounts/Examples.antt =====
-- A snapshot of a mount with a base and a working layer.
use tarbox.Base.{ℕ, Bytes, bytes, bytes_eq, none, some, [], ◌∷◌, ◌++◌, ◌≡◌, refl, true, ok}
use tarbox.Storage.Models.{Layer, Db}
use tarbox.Storage.Sample.{sample_db, sample_layer, sample_mount}
use tarbox.Storage.Layers.{get_layer}
use tarbox.Storage.Layers.Mounts.{get_working_layer, create_snapshot, sealed_as}
use tarbox.Storage.Layers.Mounts.Snapshots.{create_snapshot-advances, CanSnapshot, OnlyWorks}

abbrev digits : ℕ → Bytes
digits n = n ∷ []

abbrev mount_base_layer : Layer
mount_base_layer = record sample_layer {
  layer_id = 21;
  layer_name = bytes "base-" ++ digits 5;
  mount_entry_id = some 5;
}

abbrev mount_working_layer : Layer
mount_working_layer = record sample_layer {
  layer_id = 22;
  parent_layer_id = some 21;
  layer_name = bytes "working-" ++ digits 5;
  mount_entry_id = some 5;
  is_working = true;
}

abbrev mounted_db : Db
mounted_db = record sample_db {
  layers = mount_base_layer ∷ mount_working_layer ∷ [];
  mounts = sample_mount ∷ [];
}

mounted-CanSnapshot : CanSnapshot digits 5 (bytes "v1") none mounted_db mount_working_layer
unfolding get_working_layer get_layer bytes_eq
mounted-CanSnapshot = record {
  working = refl;
  single = ((λ e. cc e), ((λ e. refl), tt));
  row = refl;
  tenant_there = refl;
  mount_there = refl;
  name_free = refl;
  next_free = refl;
  names_differ = refl;
}

create_snapshot-advances_example :
    (new : Layer) × (db' : Db) × (create_snapshot digits 5 (bytes "v1") none mounted_db
      ≡ (ok new, db'))
    × (get_working_layer 5 db' ≡ some new)
    × (new.parent_layer_id ≡ some 22)
    × (get_layer 7 22 db' ≡ some (sealed_as (bytes "v1") none mount_working_layer))
    × OnlyWorks 5 new.layer_id db'.layers
create_snapshot-advances_example =
    create_snapshot-advances digits 5 (bytes "v1") none mounted_db mount_working_layer
      mounted-CanSnapshot
