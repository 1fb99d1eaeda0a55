-- ===== src/Composition/Resolver/Examples.antt =====
-- Two nested mounts.
use tarbox.Base.{
  List, Bytes, bytes, bytes_eq, starts_with, none, [], ◌∷◌, ◌≡◌, ◌≤◌, ◌⊎◌, All, length, refl, true,
  false, ok, err, not, ◌&&◌,
}
use tarbox.Path.{parts, split}
use tarbox.Composition.Resolver.{
  MountEntry, working_layer, read_write, components, strip_prefix, path_starts_with, path_eq,
  find_file, find_mount, no_mount_found, covers, validate_no_conflict,
}
use tarbox.Composition.Resolver.Longest.{
  find_mount-IsLongest, IsLongest, validate_no_conflict-disjoint,
}

abbrev mount : Bytes → MountEntry
mount p = record {
  mount_entry_id = 1;
  tenant_id = 7;
  name = p;
  virtual_path = p;
  source = working_layer;
  mode = read_write;
  is_file = false;
  enabled = true;
  current_layer_id = none;
  metadata = none;
}

abbrev nested : List MountEntry
nested = mount (bytes "/w") ∷ mount (bytes "/w/x") ∷ []

find_mount-IsLongest_example :
    ((m : MountEntry) × (find_mount nested (bytes "/w/x/f") ≡ ok m)
      × (((m.is_file ≡ true) × (path_eq m.virtual_path (bytes "/w/x/f") ≡ true))
          ⊎ ((find_file nested (bytes "/w/x/f") ≡ none) × IsLongest (bytes "/w/x/f") nested m)))
    ⊎ ((find_mount nested (bytes "/w/x/f") ≡ err (no_mount_found (bytes "/w/x/f")))
        × (find_file nested (bytes "/w/x/f") ≡ none)
        × All
            (λ (k : MountEntry). covers (bytes "/w/x/f") k ≡ true → length k.virtual_path ≤ 0)
            nested)
find_mount-IsLongest_example = find_mount-IsLongest (bytes "/w/x/f") nested

no_conflict : validate_no_conflict (mount (bytes "/w") ∷ []) (bytes "/data") false ≡ ok tt
unfolding validate_no_conflict path_eq path_starts_with components strip_prefix parts split
    starts_with bytes_eq
no_conflict = refl

validate_no_conflict-disjoint_example :
    All
      (λ (m : MountEntry).
        (path_eq m.virtual_path (bytes "/data") ≡ false)
        × ((true
              && (not m.is_file
                  && (path_starts_with (bytes "/data/f") (bytes "/data")
                      && path_starts_with (bytes "/data/f") m.virtual_path)))
            ≡ false))
      (mount (bytes "/w") ∷ [])
validate_no_conflict-disjoint_example =
    validate_no_conflict-disjoint (mount (bytes "/w") ∷ []) (bytes "/data") false (bytes "/data/f")
      no_conflict
