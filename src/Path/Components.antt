-- ===== src/Path/Components.antt =====
-- `path_components` and `split_path` agree with one another and with `normalize_path`.
use tarbox.Base.{
  ◌≤◌, ◌≡◌, refl, ap, ◌∙◌, Bytes, bytes_eq_iff, contains, List, [], ◌∷◌, ◌++◌, length, false, All,
  arith, ok, ◌↔◌, length-append, >>=-eq-ok, max,
}
use tarbox.Path.{
  parts, join, render, slash, root, normalize_path, path_components, split_path, split_parts, init,
  last, max_filename_length, max_path_length,
}
use mathlib.Core.List.{append_assoc}
use tarbox.Path.Pieces.{IsName, parts-IsName, parts-render, contains-append}
use tarbox.Path.Normal.{normalize_path_iff, normalize_path_idempotent, starts_with-render}

pub parts-root : parts root ≡ []
unfolding parts
parts-root = refl

pub components_of_normal :
    (path q : Bytes) → normalize_path path ≡ ok q → path_components path ≡ ok (parts q)
unfolding path_components
components_of_normal path q h = rw h (ground (arith, (bytes_eq_iff q root).0, parts-root))

pub normal_of_components :
    (path : Bytes) (cs : List Bytes)
    → path_components path ≡ ok cs
    → (q : Bytes) × (normalize_path path ≡ ok q) × (cs ≡ parts q)
unfolding path_components
normal_of_components path cs h =
    let (q, hq, _) = >>=-eq-ok (normalize_path path) _ h in
    (q, hq, cc (components_of_normal path q hq, h))

render-parts_normal : (path q : Bytes) → normalize_path path ≡ ok q → render (parts q) ≡ q
render-parts_normal path q h =
    let (_, e) = (normalize_path_iff path q).0 h in
    cc (e, ap render (ap parts e), ap render (parts-render (parts path) (parts-IsName path)))

-- `path_components` succeeds exactly where `normalize_path` does. It returns names, and joining
-- them behind slashes gives the normalised path.
pub path_components_iff :
    (path : Bytes) (cs : List Bytes)
    → (path_components path ≡ ok cs) ↔ (All IsName cs × (normalize_path path ≡ ok (render cs)))
path_components_iff path cs = (
  λ h.
      let (q, hq, e) = normal_of_components path cs h in
      (rw e (parts-IsName q), cc (hq, e, ap render e, render-parts_normal path q hq)),
  λ (n, h). rw (components_of_normal path (render cs) h) (ap ok (parts-render cs n)),
)

abbrev IsShort : Bytes → Type 0
IsShort c = length c ≤ max_filename_length

-- Names that are joined behind slashes are the components of the result, if no byte is NUL, no
-- name is over 255 bytes and the whole is at most 4096 bytes.
pub path_components-render :
    (cs : List Bytes)
    → All IsName cs
    → All IsShort cs
    → contains 0 (render cs) ≡ false
    → length (render cs) ≤ max_path_length
    → path_components (render cs) ≡ ok cs
path_components-render cs n s z f = (path_components_iff (render cs) cs).1 (
  n,
  (normalize_path_iff (render cs) (render cs)).1 (
    record {
      absolute = starts_with-render cs;
      no_nul = z;
      fits = f;
      short_names = rw (parts-render cs n) s;
    },
    rw (parts-render cs n) refl,
  ),
)

abbrev pub snoc : List Bytes → Bytes → List Bytes
snoc cs c = cs ++ c ∷ []

init-last : (p : Bytes) (ps : List Bytes) → snoc (init (p ∷ ps)) (last p ps) ≡ p ∷ ps
init-last p [] = refl
init-last p (q ∷ ps) = ap (λ l. p ∷ l) (init-last q ps)

All-snoc : (P : Bytes → Type 0) (cs : List Bytes) (c : Bytes) → All P (snoc cs c) → All P cs × P c
All-snoc P [] c h = (tt, h.0)
All-snoc P (x ∷ cs) c h = let (a, b) = All-snoc P cs c h.1 in ((h.0, a), b)

split_parts-eq-ok :
    (cs : List Bytes) (parent name : Bytes)
    → split_parts cs ≡ ok (parent, name)
    → (ds : List Bytes) × (cs ≡ snoc ds name) × (parent ≡ render ds)
unfolding render
split_parts-eq-ok [] parent name h = cc
split_parts-eq-ok (p ∷ []) parent name h = ([], ground arith, ground arith)
split_parts-eq-ok (p ∷ q ∷ ps) parent name h =
    (init (p ∷ q ∷ ps), ground (arith, init-last p (q ∷ ps)), ground arith)

join-snoc :
    (p : Bytes) (ps : List Bytes) (c : Bytes) → join (snoc (p ∷ ps) c) ≡ join (p ∷ ps) ++ slash ∷ c
unfolding join
join-snoc p [] c = refl
join-snoc p (q ∷ ps) c = rw (join-snoc q ps c, append_assoc)

contains-render-snoc :
    (ds : List Bytes) (c : Bytes)
    → contains 0 (render (snoc ds c)) ≡ false
    → contains 0 (render ds) ≡ false
unfolding render
contains-render-snoc [] c h = refl
contains-render-snoc (p ∷ ps) c h =
    ground (arith, join-snoc p ps c, contains-append 0 (join (p ∷ ps)) (slash ∷ c))

length-render-snoc :
    (ds : List Bytes) (c : Bytes) → length (render ds) ≤ max 1 (length (render (snoc ds c)))
unfolding render
length-render-snoc [] c = omega arith
length-render-snoc (p ∷ ps) c =
    omega (arith, ap length (join-snoc p ps c), length-append (join (p ∷ ps)) (slash ∷ c))

parts_of_split :
    (path parent name : Bytes)
    → split_path path ≡ ok (parent, name)
    → (q : Bytes) × (normalize_path path ≡ ok q) × (split_parts (parts q) ≡ ok (parent, name))
unfolding split_path
parts_of_split path parent name h =
    let (q, hq, e) = >>=-eq-ok (normalize_path path) _ h in (q, hq, ground arith)

-- `split_path` takes off the last component: what it returns are the path of the components
-- before it, which is itself valid, and its name.
pub split_path-components :
    (path parent name : Bytes)
    → split_path path ≡ ok (parent, name)
    → (ds : List Bytes) × (path_components path ≡ ok (snoc ds name))
      × (path_components parent ≡ ok ds)
split_path-components path parent name h =
    let (q, hq, e) = parts_of_split path parent name h in
    let (ds, eds, ep) = split_parts-eq-ok (parts q) parent name e in
    let (a, eq) = (normalize_path_iff q q).0 (normalize_path_idempotent path q hq) in
    let names : All IsName (snoc ds name) = rw eds at (parts-IsName q) in
    let shorts : All IsShort (snoc ds name) = rw eds at a.short_names in
    let whole : q ≡ render (snoc ds name) = eq ∙ ap render eds in
    (
      ds,
      rw (components_of_normal path q hq) (ap ok eds),
      rw ep (
          path_components-render ds (All-snoc IsName ds name names).0
            (All-snoc IsShort ds name shorts).0
            (contains-render-snoc ds name (rw whole at a.no_nul))
            (omega (arith, length-render-snoc ds name, ap length whole, a.fits))),
    )
