-- ===== src/Storage/MountEntries/Examples.antt =====
-- A mount of a tenant.
use tarbox.Base.{
  ℕ, ◌≡◌, refl, Bytes, bytes, bytes_eq, starts_with, Bool, true, false, none, [], ◌∷◌, ok, err, map,
}
use tarbox.Path.{parts, split}
use tarbox.Storage.Models.{Db, mismatched_types}
use tarbox.Storage.Sample.{sample_db}
use tarbox.Composition.Resolver.{
  working_layer, read_write, validate_no_conflict, path_eq, path_starts_with, components,
  strip_prefix, parse_mode, mode_as_str,
}
use tarbox.Storage.MountEntries.{
  CreateMountEntry, create_mount_entry, check_path_conflict, list_mount_entries, row_to_mount_entry,
  parse_source, source_columns, new_mount_entry, new_mount_row, get_mount_entry,
  get_mount_entry_by_name, get_mount_entry_by_path, UpdateMountEntry,
}
use tarbox.Storage.MountEntries.Changes.{update_mount_entry, patch_if}
use tarbox.Storage.MountEntries.Stored.{create_mount_entry-unreadable}
use tarbox.Storage.MountEntries.Steps.{create_mount, here, next, IsApart}
use tarbox.Storage.MountEntries.Steps.Invariant.{Reach-IsApart}

abbrev pub first : Bytes → Bytes → Bool
first a b = true

abbrev digits : ℕ → Bytes
digits n = n ∷ []

abbrev data_mount : CreateMountEntry
data_mount = record {
  name = bytes "data";
  virtual_path = bytes "/data";
  source = working_layer;
  mode = read_write;
  is_file = false;
  metadata = none;
}

abbrev grown_db : Db
grown_db = record sample_db { mounts = new_mount_row 30 7 data_mount ∷ []; next_uuid = 31 }

created :
    create_mount_entry first 7 data_mount sample_db
    ≡ (ok (new_mount_entry 30 7 data_mount), grown_db)
unfolding create_mount_entry check_path_conflict list_mount_entries row_to_mount_entry parse_source
    source_columns parse_mode mode_as_str validate_no_conflict path_eq path_starts_with components
    strip_prefix parts split starts_with bytes_eq
created = refl

create_mount_entry-unreadable_example :
    (get_mount_entry 30 grown_db ≡ err mismatched_types)
    × (get_mount_entry_by_name 7 (bytes "data") grown_db ≡ err mismatched_types)
    × (get_mount_entry_by_path 7 (bytes "/data") grown_db ≡ err mismatched_types)
    × (list_mount_entries first 7 grown_db ≡ err mismatched_types)
    × ((next : CreateMountEntry)
        → create_mount_entry first 7 next grown_db ≡ (err mismatched_types, grown_db))
    × ((u : UpdateMountEntry)
        → update_mount_entry 30 u grown_db ≡ (
          err mismatched_types,
          record grown_db { mounts = map (patch_if 30 u) grown_db.mounts },
        ))
create_mount_entry-unreadable_example =
    create_mount_entry-unreadable first 7 data_mount sample_db grown_db
      (new_mount_entry 30 7 data_mount) refl created

Reach-IsApart_example : IsApart (create_mount_entry first 7 data_mount sample_db).1
Reach-IsApart_example =
    Reach-IsApart {collate = first} {show = digits} (tt, tt)
      (next here (create_mount 7 data_mount sample_db))
