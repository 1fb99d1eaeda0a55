-- ===== src/Path/Pieces.antt =====
-- The laws of `split`, `join` and `parts` on which the theorems about paths rest.
use tarbox.Base.{
  onto_first, ℕ, suc, ◌<◌, ◌≤◌, ◌+◌, ◌≡◌, refl, ap, Bytes, contains, List, [], ◌∷◌, ◌++◌, length,
  keep, ◌||◌, true, false, ◌==◌, All, arith, Bool-cases, inl, inr, length-append, any, max,
}
use tarbox.Path.{split, nonempty, parts, join, render, slash}

-- A component: not empty, and no slash in it.
abbrev pub IsName : Bytes → Type 0
IsName p = (nonempty p ≡ true) × (contains slash p ≡ false)

onto_first-slashless :
    (x : ℕ) (ps : List Bytes)
    → (x == slash) ≡ false
    → All (λ p. contains slash p ≡ false) ps
    → All (λ p. contains slash p ≡ false) (onto_first x ps)
onto_first-slashless x [] e h = ground arith
onto_first-slashless x (p ∷ ps) e h = ground arith

split-slashless : (path : Bytes) → All (λ p. contains slash p ≡ false) (split slash path)
unfolding split
split-slashless [] = (refl, tt)
split-slashless (x ∷ xs) = elim (Bool-cases (x == slash)) [
  | inl e ↦ rw e (refl, split-slashless xs)
  | inr e ↦ rw e (onto_first-slashless x (split slash xs) e (split-slashless xs))
]

keep-IsName :
    (ps : List Bytes) → All (λ p. contains slash p ≡ false) ps → All IsName (keep nonempty ps)
keep-IsName [] h = tt
keep-IsName ([] ∷ ps) h = keep-IsName ps h.1
keep-IsName ((x ∷ p) ∷ ps) h = ((refl, h.0), keep-IsName ps h.1)

-- Every part is a name.
pub parts-IsName : (path : Bytes) → All IsName (parts path)
unfolding parts
parts-IsName path = keep-IsName (split slash path) (split-slashless path)

split_of_slashless : (p : Bytes) → contains slash p ≡ false → split slash p ≡ p ∷ []
unfolding split
split_of_slashless [] h = refl
split_of_slashless (x ∷ p) h = ground (arith, split_of_slashless p)

split-append :
    (p q : Bytes) → contains slash p ≡ false → split slash (p ++ slash ∷ q) ≡ p ∷ split slash q
unfolding split
split-append [] q h = refl
split-append (x ∷ p) q h = ground (arith, split-append p q)

split-join :
    (p : Bytes) (ps : List Bytes) → All IsName (p ∷ ps) → split slash (join (p ∷ ps)) ≡ p ∷ ps
unfolding join
split-join p [] h = split_of_slashless p h.0.1
split-join p (q ∷ ps) h =
    rw (split-append p (join (q ∷ ps)) h.0.1) (ap (λ l. p ∷ l) (split-join q ps h.1))

keep-names : (ps : List Bytes) → All IsName ps → keep nonempty ps ≡ ps
keep-names [] h = refl
keep-names (p ∷ ps) h = ground (arith, keep-names ps h.1)

-- Cutting what was joined gives the names back.
pub parts-render : (ps : List Bytes) → All IsName ps → parts (render ps) ≡ ps
unfolding parts render
parts-render [] h = refl
parts-render (p ∷ ps) h = rw (split-join p ps h) (keep-names (p ∷ ps) h)

-- The bytes of a list of pieces, with one separator for each.
abbrev weight : List Bytes → ℕ
weight [] = 0
weight (p ∷ ps) = suc (length p) + weight ps

weight-onto_first :
    (x : ℕ) (ps : List Bytes) → 0 < weight ps → weight (onto_first x ps) ≡ suc (weight ps)
weight-onto_first x [] h = absurd (omega arith)
weight-onto_first x (p ∷ ps) h = omega arith

weight-split : (path : Bytes) → weight (split slash path) ≡ suc (length path)
unfolding split
weight-split [] = refl
weight-split (x ∷ xs) = ground (arith, weight-split xs, weight-onto_first x (split slash xs))

weight-keep : (ps : List Bytes) → weight (keep nonempty ps) ≤ weight ps
weight-keep [] = omega arith
weight-keep (p ∷ ps) = ground (arith, weight-keep ps)

weight-join : (p : Bytes) (ps : List Bytes) → suc (length (join (p ∷ ps))) ≡ weight (p ∷ ps)
unfolding join
weight-join p [] = omega arith
weight-join p (q ∷ ps) = omega (arith, length-append p (slash ∷ join (q ∷ ps)), weight-join q ps)

length-render : (ps : List Bytes) → length (render ps) ≤ max 1 (weight ps)
unfolding render
length-render [] = omega arith
length-render (p ∷ ps) = omega (arith, weight-join p ps)

parts-slash : (rest : Bytes) → parts (slash ∷ rest) ≡ keep nonempty (split slash rest)
unfolding parts
parts-slash rest = refl

-- Normalising an absolute path never lengthens it.
pub length-render-parts :
    (rest : Bytes) → length (render (parts (slash ∷ rest))) ≤ suc (length rest)
length-render-parts rest = omega (
  arith,
  ap (λ l. length (render l)) (parts-slash rest),
  length-render (keep nonempty (split slash rest)),
  weight-keep (split slash rest),
  weight-split rest,
)

-- No byte appears in the normalised path that was not in the path.
contains-onto_first :
    (c x : ℕ) (ps : List Bytes)
    → (x == c) ≡ false
    → any (contains c) ps ≡ false
    → any (contains c) (onto_first x ps) ≡ false
contains-onto_first c x [] e h = ground arith
contains-onto_first c x (p ∷ ps) e h = ground arith

contains-split :
    (c : ℕ) (path : Bytes) → contains c path ≡ false → any (contains c) (split slash path) ≡ false
unfolding split
contains-split c [] h = refl
contains-split c (x ∷ xs) h =
    ground (arith, contains-split c xs, contains-onto_first c x (split slash xs))

contains-keep :
    (c : ℕ) (ps : List Bytes)
    → any (contains c) ps ≡ false
    → any (contains c) (keep nonempty ps) ≡ false
contains-keep c [] h = refl
contains-keep c (p ∷ ps) h = ground (arith, contains-keep c ps)

pub contains-append : (c : ℕ) (p q : Bytes) → contains c (p ++ q) ≡ (contains c p || contains c q)
contains-append c [] q = refl
contains-append c (x ∷ p) q = ground (arith, contains-append c p q)

contains-join :
    (c : ℕ) (ps : List Bytes)
    → (slash == c) ≡ false
    → any (contains c) ps ≡ false
    → contains c (join ps) ≡ false
unfolding join
contains-join c [] e h = refl
contains-join c (p ∷ []) e h = ground arith
contains-join c (p ∷ q ∷ ps) e h = rw contains-append (ground (arith, contains-join c (q ∷ ps) e))

pub contains-render-parts :
    (c : ℕ) (path : Bytes)
    → (slash == c) ≡ false
    → contains c path ≡ false
    → contains c (render (parts path)) ≡ false
unfolding parts render
contains-render-parts c path e h = ground (
  arith,
  contains-join c (keep nonempty (split slash path)) e,
  contains-keep c (split slash path),
  contains-split c path h,
)
