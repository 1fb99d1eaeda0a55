-- ===== src/Layer/Lines/Laws.antt =====
-- When joining the lines of a text gives the text back.
use tarbox.Base.{
  ℕ, ◌<◌, ◌≤◌, ◌≡◌, ◌≢◌, refl, ap, ◌∙◌, sym, Bytes, bytes_eq, bytes_eq_iff, Bool, true, false, not,
  ◌&&◌, ◌||◌, List, [], ◌∷◌, ◌++◌, length, is_empty, if◌then◌else◌, arith, Bool-cases, inl, inr,
  ◌⊎◌,
}
use mathlib.Core.List.{append-nil}
use tarbox.Layer.Lines.{lf, cr, lines, ends_with_newline, join_lines, separator, reassemble}
use tarbox.Layer.Lines.Glue.{glue, at_crlf, to_lf, to_lf-crlf, to_lf-cons, glue-lines}

-- A text that is one empty line and nothing else.
abbrev pub blank : Bytes → Bool
blank d = bytes_eq d (lf ∷ []) || bytes_eq d (cr ∷ lf ∷ [])

to_lf-nonempty : (x : ℕ) (xs : Bytes) → is_empty (to_lf (x ∷ xs)) ≡ false
to_lf-nonempty x [] = let k : at_crlf x [] ≡ false = ground arith in rw (to_lf-cons x [] k) refl
to_lf-nonempty x (y ∷ ys) = elim (Bool-cases (at_crlf x (y ∷ ys))) [
  | inl k ↦ rw (to_lf-crlf x (y ∷ ys) k) (to_lf-nonempty y ys)
  | inr k ↦ rw (to_lf-cons x (y ∷ ys) k) refl
]

to_lf-nil : (d : Bytes) → to_lf d ≡ [] → d ≡ []
to_lf-nil [] h = refl
to_lf-nil (x ∷ xs) h = cc (to_lf-nonempty x xs, ap is_empty h)

lone_lf : (d : Bytes) → to_lf d ≡ lf ∷ [] → (d ≡ lf ∷ []) ⊎ (d ≡ cr ∷ lf ∷ [])
lone_lf [] h = unfold to_lf in cc h
lone_lf (x ∷ xs) h = elim (Bool-cases (at_crlf x xs)) [
  | inl k ↦ inr (after_cr x xs k (sym (to_lf-crlf x xs k) ∙ h))
  | inr k ↦
      let e : x ∷ to_lf xs ≡ lf ∷ [] = sym (to_lf-cons x xs k) ∙ h in
      let r : to_lf xs ≡ [] = cc e in inl (cc (e, to_lf-nil xs r))
]
  where
    after_cr :
        (x : ℕ) (xs : Bytes) → at_crlf x xs ≡ true → to_lf xs ≡ lf ∷ [] → x ∷ xs ≡ cr ∷ lf ∷ []
    after_cr x [] k e = ground arith
    after_cr x (y ∷ ys) k e =
        let ex : x ≡ cr = ground arith in
        let ey : y ≡ lf = ground arith in
        let e' : lf ∷ to_lf ys ≡ lf ∷ [] = sym (to_lf-cons lf ys refl) ∙ (rw ey at e) in
        let r : to_lf ys ≡ [] = cc e' in cc (ex, ey, to_lf-nil ys r)

blank-eq : (d : Bytes) → blank d ≡ true → (d ≡ lf ∷ []) ⊎ (d ≡ cr ∷ lf ∷ [])
blank-eq d h = ground (arith, bytes_eq_iff d (lf ∷ []), bytes_eq_iff d (cr ∷ lf ∷ []))

blank-facts : (d : Bytes) → blank d ≡ true → (ends_with_newline d ≡ true) × (to_lf d ≡ lf ∷ [])
unfolding to_lf ends_with_newline
blank-facts d h = elim (blank-eq d h) [ inl e ↦ rw e (refl, refl) | inr e ↦ rw e (refl, refl) ]

not_blank : (d : Bytes) → (to_lf d ≡ lf ∷ [] → ⊥) → blank d ≡ false
not_blank d h = elim (Bool-cases (blank d)) [ inl b ↦ absurd (h (blank-facts d b).1) | inr b ↦ b ]

unterminated : (d : Bytes) → ends_with_newline d ≡ false → blank d ≡ false
unterminated d e = elim (Bool-cases (blank d)) [ inl b ↦ cc ((blank-facts d b).0, e) | inr b ↦ b ]

blank_of_lone : (d : Bytes) → to_lf d ≡ lf ∷ [] → blank d ≡ true
unfolding bytes_eq
blank_of_lone d h = elim (lone_lf d h) [ inl e ↦ rw e refl | inr e ↦ rw e refl ]

append-one-nonempty : (x y : ℕ) (xs : Bytes) → x ∷ xs ++ y ∷ [] ≢ lf ∷ []
append-one-nonempty x y [] e = cc e
append-one-nonempty x y (z ∷ zs) e = cc e

module _ (ending : Bytes) (plain : separator ending ≡ lf ∷ []) where
  reassemble-glue :
      (t : Bool) (ls : List Bytes) (d : Bytes)
      → glue t ls ≡ to_lf d
      → ends_with_newline d ≡ t
      → reassemble ending t ls ≡ (if blank d then [] else to_lf d)
  unfolding reassemble
  reassemble-glue t ls d g e = rw plain (go t (join_lines (lf ∷ []) ls) g e)
    where
      go :
          (t : Bool) (j : Bytes)
          → j ++ (if t then lf ∷ [] else []) ≡ to_lf d
          → ends_with_newline d ≡ t
          → (if t && not (is_empty j) then j ++ lf ∷ [] else j) ≡ (if blank d then [] else to_lf d)
      go false j g e = rw (unterminated d e) (sym (append-nil j) ∙ g)
      go true [] g e = rw (blank_of_lone d (sym g)) refl
      go true (x ∷ j) g e = rw (not_blank d (λ h. append-one-nonempty x lf j (g ∙ h))) g

  -- What `read_text_file` makes of the lines of a text whose recorded line ending is any but the
  -- lower-case names: the text with `\r\n` replaced by `\n`, or nothing for a single newline.
  pub reassemble-lines :
      (d : Bytes)
      → reassemble ending (ends_with_newline d) (lines d) ≡ (if blank d then [] else to_lf d)
  reassemble-lines d = reassemble-glue (ends_with_newline d) (lines d) d (glue-lines d) refl

-- A text has a `\r\n` in it.
unfoldable pub has_crlf : Bytes → Bool
has_crlf [] = false
has_crlf (x ∷ xs) = at_crlf x xs || has_crlf xs

to_lf-length : (d : Bytes) → length (to_lf d) ≤ length d
unfolding to_lf
to_lf-length [] = omega arith
to_lf-length (x ∷ xs) = ground (arith, to_lf-length xs)

-- Replacing `\r\n` changes a text exactly if it has one.
pub to_lf-eq : (d : Bytes) → has_crlf d ≡ false → to_lf d ≡ d
unfolding to_lf has_crlf
to_lf-eq [] h = refl
to_lf-eq (x ∷ xs) h = ground (arith, to_lf-eq xs)

pub to_lf-shorter : (d : Bytes) → has_crlf d ≡ true → length (to_lf d) < length d
unfolding to_lf has_crlf
to_lf-shorter [] h = cc
to_lf-shorter (x ∷ xs) h = ground (arith, to_lf-shorter xs, to_lf-length xs)
