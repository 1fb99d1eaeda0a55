-- ===== src/Layer/Lines/Glue.antt =====
-- Lines with their ends put back give the text with each carriage return before a line feed taken out.
use tarbox.Base.{
  ℕ, onto_first, All, ◌≡◌, refl, ap, Bytes, Bool, true, false, ◌&&◌, List, [], ◌∷◌, ◌++◌, map,
  is_empty, ◌==◌, if◌then◌else◌, arith, Bool-cases, inl, inr,
}
use tarbox.Layer.Lines.{
  lf, cr, split_inclusive, strip_suffix, or_self, chomp, lines, ends_with_newline, join_lines,
}

-- Lines joined by `\n`, with one more behind them if the text ended with one.
abbrev pub glue : Bool → List Bytes → Bytes
glue trailing ls = join_lines (lf ∷ []) ls ++ (if trailing then lf ∷ [] else [])

-- What reading gives back: the text with each `\r\n` replaced by `\n`.
abbrev pub starts_with_lf : Bytes → Bool
starts_with_lf [] = false
starts_with_lf (x ∷ xs) = x == lf

abbrev pub at_crlf : ℕ → Bytes → Bool
at_crlf x xs = x == cr && starts_with_lf xs

unfoldable pub to_lf : Bytes → Bytes
to_lf [] = []
to_lf (x ∷ xs) = let rest = to_lf xs in if at_crlf x xs then rest else x ∷ rest

strip_suffix-cons :
    (c x : ℕ) (s : Bytes)
    → (x == c) ≡ false
    → or_self (x ∷ s) (strip_suffix c (x ∷ s)) ≡ x ∷ or_self s (strip_suffix c s)
strip_suffix-cons c x [] h = ground arith
strip_suffix-cons c x (y ∷ ys) h = ground arith

-- Within a line a first byte is kept, unless it is the `\r` of a closing `\r\n`.
chomp-cons :
    (x y : ℕ) (p : Bytes) → at_crlf x (y ∷ p) ≡ false → chomp (x ∷ y ∷ p) ≡ x ∷ chomp (y ∷ p)
chomp-cons x y [] h = ground (arith, strip_suffix-cons cr x [])
chomp-cons x y (z ∷ p) h = ground arith

abbrev IsPiece : Bytes → Type 0
IsPiece p = is_empty p ≡ false

pieces_nonempty : (d : Bytes) → All IsPiece (split_inclusive d)
unfolding split_inclusive
pieces_nonempty [] = tt
pieces_nonempty (x ∷ xs) = go (x == lf) (split_inclusive xs) (pieces_nonempty xs)
  where
    go :
        (b : Bool) (ps : List Bytes)
        → All IsPiece ps
        → All IsPiece (if b then (x ∷ []) ∷ ps else onto_first x ps)
    go true ps h = (refl, h)
    go false [] h = (refl, tt)
    go false (p ∷ ps) h = (refl, h.1)

lines-lf : (xs : Bytes) → lines (lf ∷ xs) ≡ [] ∷ lines xs
unfolding lines
lines-lf xs = refl

lines-crlf : (xs : Bytes) → lines (cr ∷ lf ∷ xs) ≡ [] ∷ lines xs
unfolding lines
lines-crlf xs = refl

-- The first piece begins as the text does.
abbrev first_starts_with_lf : List Bytes → Bool
first_starts_with_lf [] = false
first_starts_with_lf (p ∷ ps) = starts_with_lf p

first_of_split : (d : Bytes) → first_starts_with_lf (split_inclusive d) ≡ starts_with_lf d
unfolding split_inclusive
first_of_split [] = refl
first_of_split (x ∷ xs) = go (x == lf) refl (split_inclusive xs)
  where
    go :
        (b : Bool)
        → (x == lf) ≡ b
        → (ps : List Bytes)
        → first_starts_with_lf (if b then (x ∷ []) ∷ ps else onto_first x ps) ≡ (x == lf)
    go true e ps = refl
    go false e [] = refl
    go false e (p ∷ ps) = refl

map-chomp-onto_first :
    (x : ℕ) (ps : List Bytes)
    → All IsPiece ps
    → (x == lf) ≡ false
    → (x == cr && first_starts_with_lf ps) ≡ false
    → map chomp (onto_first x ps) ≡ onto_first x (map chomp ps)
map-chomp-onto_first x [] h e k = ground arith
map-chomp-onto_first x ([] ∷ ps) h e k = cc (h.0)
map-chomp-onto_first x ((y ∷ p) ∷ ps) h e k = rw (chomp-cons x y p k) refl

lines-cons :
    (x : ℕ) (xs : Bytes)
    → (x == lf) ≡ false
    → at_crlf x xs ≡ false
    → lines (x ∷ xs) ≡ onto_first x (lines xs)
unfolding lines
lines-cons x xs e k =
    rw e (map-chomp-onto_first x (split_inclusive xs) (pieces_nonempty xs) e (rw first_of_split k))

lines_nonempty : (x : ℕ) (xs : Bytes) → is_empty (lines (x ∷ xs)) ≡ false
unfolding lines
lines_nonempty x xs = go (x == lf) (split_inclusive xs)
  where
    go :
        (b : Bool) (ps : List Bytes)
        → is_empty (map chomp (if b then (x ∷ []) ∷ ps else onto_first x ps)) ≡ false
    go true ps = refl
    go false [] = refl
    go false (p ∷ ps) = refl

glue-onto_first : (x : ℕ) (t : Bool) (ls : List Bytes) → glue t (onto_first x ls) ≡ x ∷ glue t ls
unfolding join_lines
glue-onto_first x t [] = refl
glue-onto_first x t (l ∷ []) = refl
glue-onto_first x t (l ∷ m ∷ ls) = refl

glue-nil : (t : Bool) (ls : List Bytes) → is_empty ls ≡ false → glue t ([] ∷ ls) ≡ lf ∷ glue t ls
unfolding join_lines
glue-nil t [] h = cc
glue-nil t (l ∷ ls) h = refl

pub to_lf-crlf : (x : ℕ) (xs : Bytes) → at_crlf x xs ≡ true → to_lf (x ∷ xs) ≡ to_lf xs
unfolding to_lf
to_lf-crlf x xs h = rw h refl

pub to_lf-cons : (x : ℕ) (xs : Bytes) → at_crlf x xs ≡ false → to_lf (x ∷ xs) ≡ x ∷ to_lf xs
unfolding to_lf
to_lf-cons x xs h = rw h refl

ends_with_newline-cons :
    (x y : ℕ) (ys : Bytes) → ends_with_newline (x ∷ y ∷ ys) ≡ ends_with_newline (y ∷ ys)
unfolding ends_with_newline
ends_with_newline-cons x y ys = refl

abbrev Glues : Bytes → Type 0
Glues d = glue (ends_with_newline d) (lines d) ≡ to_lf d

lines-at_crlf : (x : ℕ) (xs : Bytes) → at_crlf x xs ≡ true → lines (x ∷ xs) ≡ lines xs
lines-at_crlf x [] h = ground arith
lines-at_crlf x (y ∷ ys) h =
    let ex : x ≡ cr = ground arith in
    let ey : y ≡ lf = ground arith in rw (ex, ey, lines-crlf ys, lines-lf ys) refl

glue-step : (x y : ℕ) (ys : Bytes) → Glues (y ∷ ys) → Glues (x ∷ y ∷ ys)
glue-step x y ys ih = rw ends_with_newline-cons (elim (Bool-cases (x == lf)) [
  | inl e ↦
      let ex : x ≡ lf = ground arith in
      rw
        (
          ex,
          lines-lf (y ∷ ys),
          glue-nil (ends_with_newline (y ∷ ys)) (lines (y ∷ ys)) (lines_nonempty y ys),
          to_lf-cons lf (y ∷ ys) refl,
        )
        (ap (λ l. lf ∷ l) ih)
  | inr e ↦ elim (Bool-cases (at_crlf x (y ∷ ys))) [
    | inl k ↦ rw (lines-at_crlf x (y ∷ ys) k, to_lf-crlf x (y ∷ ys) k) ih
    | inr k ↦
        rw (lines-cons x (y ∷ ys) e k, glue-onto_first, to_lf-cons x (y ∷ ys) k)
          (ap (λ l. x ∷ l) ih)
  ]
])

glue_one : (x : ℕ) → Glues (x ∷ [])
glue_one x = elim (Bool-cases (x == lf)) [
  | inl e ↦
      let ex : x ≡ lf = ground arith in
      rw ex (unfold lines join_lines ends_with_newline to_lf in refl)
  | inr e ↦
      let k : at_crlf x [] ≡ false = ground arith in
      rw (lines-cons x [] e k, glue-onto_first, to_lf-cons x [] k)
        (unfold lines join_lines ends_with_newline to_lf in rw e refl)
]

-- Cutting a text into lines and joining them with `\n` replaces each `\r\n` and nothing else.
pub glue-lines : (d : Bytes) → glue (ends_with_newline d) (lines d) ≡ to_lf d
glue-lines [] = unfold lines join_lines ends_with_newline to_lf in refl
glue-lines (x ∷ []) = glue_one x
glue-lines (x ∷ y ∷ ys) = glue-step x y ys (glue-lines (y ∷ ys))
