-- ===== src/Path/Examples.antt =====
-- Runs of src/fs/path.rs, after its own tests, and the theorems at concrete paths.
use tarbox.Base.{◌≡◌, refl, Bytes, bytes, bytes_eq, starts_with, List, [], ◌∷◌, ok, err, ◌↔◌}
use tarbox.Path.{
  parts, render, check_parts, normalize_path, path_components, split_path, invalid_path,
}
use tarbox.Path.Normal.{IsAccepted, normalize_path_iff}

abbrev messy : Bytes
messy = bytes "//data//files//"

abbrev clean : Bytes
clean = bytes "/data/files"

normalize-messy : normalize_path messy ≡ ok clean
unfolding normalize_path check_parts parts render bytes_eq starts_with
normalize-messy = refl

normalize_errors :
    (normalize_path [] ≡ err (invalid_path (bytes "Empty path")))
    × (normalize_path (bytes "data") ≡ err (invalid_path (bytes "Path must start with /")))
unfolding normalize_path check_parts parts render bytes_eq starts_with
normalize_errors = (refl, refl)

split-clean : split_path messy ≡ ok (bytes "/data", bytes "files")
unfolding split_path normalize_path check_parts parts render bytes_eq starts_with
split-clean = refl

components-messy : path_components messy ≡ ok (bytes "data" ∷ bytes "files" ∷ [])
unfolding path_components normalize_path check_parts parts render bytes_eq starts_with
components-messy = refl

normalize_path_iff_example :
    (normalize_path messy ≡ ok clean) ↔ (IsAccepted messy × (clean ≡ render (parts messy)))
normalize_path_iff_example = normalize_path_iff messy clean

abbrev names : List Bytes
names = bytes "data" ∷ bytes "files" ∷ []
