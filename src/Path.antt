-- ===== src/Path.antt =====
-- src/fs/path.rs and src/fs/error.rs: absolute paths are validated, normalised, split into parent
-- and name, and cut into components. A path is the list of its UTF-8 bytes: `/` and NUL are single
-- bytes, and `len()` counts bytes.
pub mod Pieces
pub mod Normal
pub mod Components
mod Examples
use tarbox.Base.{
  ℕ, ◌<◌, ◌≤◌, ◌+◌, Bytes, bytes, bytes_eq, contains, starts_with, Result, ok, err, ◌>>=◌, List, [],
  ◌∷◌, ◌++◌, length, keep, is_empty, not, Bool, true, false, ltb, onto_first, if◌then◌else◌, ◌==◌,
}

-- `FsError` of src/fs/error.rs. `Storage` carries the message of the database error.
pub data FsError : Type 0 where
  path_not_found : Bytes → FsError
  already_exists : Bytes → FsError
  not_directory : Bytes → FsError
  is_directory : Bytes → FsError
  directory_not_empty : Bytes → FsError
  invalid_path : Bytes → FsError
  path_too_long : ℕ → FsError
  filename_too_long : ℕ → FsError
  storage : Bytes → FsError

abbrev pub FsResult {ℓ} : Type ℓ → Type ℓ
FsResult A = Result FsError A

abbrev pub max_path_length : ℕ
max_path_length = 4096

abbrev pub max_filename_length : ℕ
max_filename_length = 255

abbrev pub slash : ℕ
slash = b'/'

-- `/`
abbrev pub root : Bytes
root = slash ∷ []

-- `path.split(c)`: the pieces between the separators, the empty ones included.
unfoldable pub split : ℕ → Bytes → List Bytes
split c [] = [] ∷ []
split c (x ∷ xs) = let rest = split c xs in if x == c then [] ∷ rest else onto_first x rest

abbrev pub nonempty : Bytes → Bool
nonempty p = not (is_empty p)

-- `path.split('/').filter(|s| !s.is_empty())`
unfoldable pub parts : Bytes → List Bytes
unfolding split
parts path = keep nonempty (split slash path)

-- `parts.join("/")`
unfoldable pub join : List Bytes → Bytes
join [] = []
join (p ∷ []) = p
join (p ∷ q ∷ ps) = p ++ slash ∷ join (q ∷ ps)

-- `format!("/{}", parts.join("/"))`
unfoldable pub render : List Bytes → Bytes
unfolding join
render ps = slash ∷ join ps

-- The loop over the parts: the first that is too long is reported.
unfoldable pub check_parts : List Bytes → FsResult (Unit {0})
check_parts [] = ok tt
check_parts (p ∷ ps) =
    let rest = check_parts ps in
    if ltb max_filename_length (length p) then err (filename_too_long (length p)) else rest

unfoldable pub normalize_path : Bytes → FsResult Bytes
normalize_path path =
    if is_empty path
    then err (invalid_path (bytes "Empty path"))
    else if contains 0 path
    then err (invalid_path (bytes "Path contains NULL character"))
    else if ltb max_path_length (length path)
    then err (path_too_long (length path))
    else if not (starts_with path root)
    then err (invalid_path (bytes "Path must start with /"))
    else if bytes_eq path root
    then ok root
    else (check_parts (parts path) >>= λ _. ok (render (parts path)))

-- The parts without the last, and the last; `none` where there are no parts.
abbrev pub init : List Bytes → List Bytes
init [] = []
init (p ∷ []) = []
init (p ∷ q ∷ ps) = p ∷ init (q ∷ ps)

abbrev pub last : Bytes → List Bytes → Bytes
last d [] = d
last d (p ∷ ps) = last p ps

-- The part of `split_path` after the root test.
abbrev pub split_parts : List Bytes → FsResult (Bytes × Bytes)
split_parts [] = err (invalid_path (bytes "Empty path after split"))
split_parts (p ∷ []) = ok (root, p)
split_parts (p ∷ q ∷ ps) = ok (render (init (p ∷ q ∷ ps)), last p (q ∷ ps))

unfoldable pub split_path : Bytes → FsResult (Bytes × Bytes)
split_path path = do
  normalized ← normalize_path path
  if bytes_eq normalized root
      then err (invalid_path (bytes "Cannot split root path"))
      else split_parts (parts normalized)

unfoldable pub path_components : Bytes → FsResult (List Bytes)
path_components path = do
  normalized ← normalize_path path
  if bytes_eq normalized root then ok [] else ok (parts normalized)
