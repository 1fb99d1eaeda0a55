-- ===== src/Path/Normal.antt =====
-- What `normalize_path` returns.
use tarbox.Base.{
  ◌≤◌, ◌≡◌, refl, sym, ap, Bytes, bytes_eq, bytes_eq_iff, contains, starts_with, List, [], ◌∷◌,
  length, true, false, All, arith, ok, ◌↔◌,
}
use tarbox.Path.{
  parts, render, slash, root, check_parts, max_filename_length, max_path_length, normalize_path,
}
use tarbox.Path.Pieces.{parts-IsName, parts-render, length-render-parts, contains-render-parts}

abbrev IsShort : Bytes → Type 0
IsShort c = length c ≤ max_filename_length

-- What a path must be for `normalize_path` to accept it.
pub record IsAccepted (path : Bytes) : Type 0 where
  pub absolute : starts_with path root ≡ true
  pub no_nul : contains 0 path ≡ false
  pub fits : length path ≤ max_path_length
  pub short_names : All IsShort (parts path)

check_parts-ok : (ps : List Bytes) → All IsShort ps → check_parts ps ≡ ok tt
unfolding check_parts
check_parts-ok [] h = refl
check_parts-ok (p ∷ ps) h = ground (arith, check_parts-ok ps h.1)

IsShort-of_check_parts : (ps : List Bytes) → check_parts ps ≡ ok tt → All IsShort ps
unfolding check_parts
IsShort-of_check_parts [] h = tt
IsShort-of_check_parts (p ∷ ps) h = ground (arith, IsShort-of_check_parts ps)

render-parts-root : render (parts root) ≡ root
unfolding parts render
render-parts-root = refl

bytes_eq-root : (path : Bytes) → bytes_eq path root ≡ true → path ≡ root
bytes_eq-root path e = (bytes_eq_iff path root).0 e

normalize_path-IsAccepted :
    (path : Bytes) → IsAccepted path → normalize_path path ≡ ok (render (parts path))
unfolding normalize_path starts_with
normalize_path-IsAccepted [] a = absurd (cc (a.absolute))
normalize_path-IsAccepted (x ∷ rest) a = ground (
  arith,
  check_parts-ok (parts (x ∷ rest)) a.short_names,
  bytes_eq-root (x ∷ rest),
  render-parts-root,
)

check_parts-root : check_parts (parts root) ≡ ok tt
unfolding parts check_parts
check_parts-root = refl

IsAccepted-of_normalize_path :
    (path q : Bytes) → normalize_path path ≡ ok q → IsAccepted path × (q ≡ render (parts path))
unfolding normalize_path
IsAccepted-of_normalize_path path q h = (
  record {
    absolute = ground arith;
    no_nul = ground arith;
    fits = ground arith;
    short_names = IsShort-of_check_parts (parts path) checked;
  },
  ground (arith, bytes_eq-root path, render-parts-root),
)
  where
    checked : check_parts (parts path) ≡ ok tt
    checked = ground (arith, bytes_eq-root path, check_parts-root)

-- `normalize_path` accepts exactly the paths that start with `/`, have no NUL, are at most 4096
-- bytes long and have no component over 255 bytes, and returns `/` followed by the non-empty
-- components joined by single slashes.
pub normalize_path_iff :
    (path q : Bytes) → (normalize_path path ≡ ok q) ↔ (IsAccepted path × (q ≡ render (parts path)))
normalize_path_iff path q =
    (IsAccepted-of_normalize_path path q, λ (a, e). rw e (normalize_path-IsAccepted path a))

pub starts_with-render : (ps : List Bytes) → starts_with (render ps) root ≡ true
unfolding starts_with render
starts_with-render ps = refl

starts_with-cons :
    (path : Bytes) → starts_with path root ≡ true → (rest : Bytes) × (path ≡ slash ∷ rest)
unfolding starts_with
starts_with-cons [] h = cc
starts_with-cons (x ∷ rest) h = (rest, ground arith)

length-render_le :
    (path : Bytes) → starts_with path root ≡ true → length (render (parts path)) ≤ length path
length-render_le path h = let (rest, e) = starts_with-cons path h in rw e (length-render-parts rest)

render-IsAccepted : (path : Bytes) → IsAccepted path → IsAccepted (render (parts path))
render-IsAccepted path a = record {
  absolute = starts_with-render (parts path);
  no_nul = contains-render-parts 0 path refl a.no_nul;
  fits = omega (arith, length-render_le path a.absolute, a.fits);
  short_names = rw (parts-render (parts path) (parts-IsName path)) a.short_names;
}

-- A normalised path normalises to itself.
pub normalize_path_idempotent :
    (path q : Bytes) → normalize_path path ≡ ok q → normalize_path q ≡ ok q
normalize_path_idempotent path q h =
    let (a, e) = IsAccepted-of_normalize_path path q h in
    (normalize_path_iff q q).1 (
      rw e (render-IsAccepted path a),
      rw e (ap render (sym (parts-render (parts path) (parts-IsName path)))),
    )
