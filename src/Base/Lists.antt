-- ===== src/Base/Lists.antt =====
-- Lists measured by native numbers, Boolean filters and searches, and predicates on all members.
use Prim.Native.Nat.{ℕ, zero, suc, ◌+◌, ◌-◌, ◌≤◌, min}
use mathlib.Core.Path.{◌≡◌, refl, subst, sym, ap, ◌∙◌}
use mathlib.Core.Bool.{Bool, true, false, not, ◌&&◌, ◌||◌}
use mathlib.Core.List.{List, [], ◌∷◌, ◌++◌}
use mathlib.Core.Option.{Option, none, some, some-injective}
use native.Mathlib.Omega.{arith}
use tarbox.Base.Tests.{if◌then◌else◌}

module _ {ℓ} {A : Type ℓ} where
  abbrev pub length : List A → ℕ
  length [] = 0
  length (x ∷ xs) = suc (length xs)

  abbrev pub take : ℕ → List A → List A
  take zero xs = []
  take (suc n) [] = []
  take (suc n) (x ∷ xs) = x ∷ take n xs

  abbrev pub drop : ℕ → List A → List A
  drop zero xs = xs
  drop (suc n) [] = []
  drop (suc n) (x ∷ xs) = drop n xs

  pub take-append-drop : (n : ℕ) (xs : List A) → take n xs ++ drop n xs ≡ xs
  take-append-drop zero xs = refl
  take-append-drop (suc n) [] = refl
  take-append-drop (suc n) (x ∷ xs) = rw (take-append-drop n xs)

  pub length-take : (n : ℕ) (xs : List A) → length (take n xs) ≡ min n (length xs)
  length-take zero xs = omega arith
  length-take (suc n) [] = omega arith
  length-take (suc n) (x ∷ xs) = omega (arith, length-take n xs)

  pub length-drop : (n : ℕ) (xs : List A) → length (drop n xs) ≡ length xs - n
  length-drop zero xs = omega arith
  length-drop (suc n) [] = omega arith
  length-drop (suc n) (x ∷ xs) = omega (arith, length-drop n xs)

  pub length-append : (xs ys : List A) → length (xs ++ ys) ≡ length xs + length ys
  length-append [] ys = omega arith
  length-append (x ∷ xs) ys = omega (arith, length-append xs ys)

  pub length-snoc : (xs : List A) (x : A) → length (xs ++ x ∷ []) ≡ suc (length xs)
  length-snoc xs x = omega (arith, length-append xs (x ∷ []))

  -- `iter.filter(p)`
  abbrev pub keep : (A → Bool) → List A → List A
  keep p [] = []
  keep p (x ∷ xs) = let rest = keep p xs in if p x then x ∷ rest else rest

  -- `iter.find(p)`
  abbrev pub find : (A → Bool) → List A → Option A
  find p [] = none
  find p (x ∷ xs) = let rest = find p xs in if p x then some x else rest

  -- `iter.any(p)`
  abbrev pub any : (A → Bool) → List A → Bool
  any p [] = false
  any p (x ∷ xs) = p x || any p xs

  -- `v.is_empty()`
  abbrev pub is_empty : List A → Bool
  is_empty [] = true
  is_empty (x ∷ xs) = false

  abbrev pub All {κ} : (A → Type κ) → List A → Type κ
  All P [] = Unit
  All P (x ∷ xs) = P x × All P xs

  pub All-append {κ} : (P : A → Type κ) (xs ys : List A) → All P xs → All P ys → All P (xs ++ ys)
  All-append P [] ys h k = k
  All-append P (x ∷ xs) ys h k = (h.0, All-append P xs ys h.1 k)

  pub All-keep {κ} : (P : A → Type κ) (p : A → Bool) (xs : List A) → All P xs → All P (keep p xs)
  All-keep P p [] h = h
  All-keep P p (x ∷ xs) h = go (p x) (All-keep P p xs h.1)
    where
      go : (b : Bool) → All P (keep p xs) → All P (if b then x ∷ keep p xs else keep p xs)
      go true k = (h.0, k)
      go false k = k

module _ {ℓ} {A : Type ℓ} (p : A → Bool) where
  pub keep-append : (xs ys : List A) → keep p (xs ++ ys) ≡ keep p xs ++ keep p ys
  keep-append [] ys = refl
  keep-append (x ∷ xs) ys = ground (arith, keep-append xs ys)

  pub any-keep : (q : A → Bool) (xs : List A) → any (λ x. p x && q x) xs ≡ any q (keep p xs)
  any-keep q [] = refl
  any-keep q (x ∷ xs) = ground (arith, any-keep q xs)

  pub keep-not : (xs : List A) → keep p (keep (λ x. not (p x)) xs) ≡ []
  keep-not [] = refl
  keep-not (x ∷ xs) = ground (arith, keep-not xs)

module _ {ℓ} {A : Type ℓ} (p : A → Bool) where
  pub find-append : (xs ys : List A) (a : A) → find p xs ≡ some a → find p (xs ++ ys) ≡ some a
  find-append [] ys a h = cc
  find-append (x ∷ xs) ys a h = ground (arith, find-append xs ys a)

  pub find-append_none : (xs ys : List A) → find p xs ≡ none → find p (xs ++ ys) ≡ find p ys
  find-append_none [] ys h = refl
  find-append_none (x ∷ xs) ys h = ground (arith, find-append_none xs ys)

  pub find-none {κ} :
      (P : A → Type κ) (xs : List A) → ((x : A) → P x → p x ≡ false) → All P xs → find p xs ≡ none
  find-none P [] f h = refl
  find-none P (x ∷ xs) f h = rw (f x h.0) (find-none P xs f h.1)

  -- What is found satisfies what all members satisfy, and the test.
  pub find-All {κ} : (P : A → Type κ) (xs : List A) (a : A) → All P xs → find p xs ≡ some a → P a
  find-All P [] a h e = cc
  find-All P (x ∷ xs) a h e = go (p x) refl e (find-All P xs a h.1)
    where
      go :
          (b : Bool)
          → p x ≡ b
          → (if b then some x else find p xs) ≡ some a
          → (find p xs ≡ some a → P a)
          → P a
      go true q e k = subst P (some-injective x a e) h.0
      go false q e k = k e

  pub find-holds : (xs : List A) (a : A) → find p xs ≡ some a → p a ≡ true
  find-holds [] a e = cc
  find-holds (x ∷ xs) a e = ground (arith, find-holds xs a)

module _ {ℓ κ μ} {A : Type ℓ} {P : A → Type κ} {Q : A → Type μ} where
  pub All-map : (xs : List A) → ((x : A) → P x → Q x) → All P xs → All Q xs
  All-map [] f h = tt
  All-map (x ∷ xs) f h = (f x h.0, All-map xs f h.1)

pub drop_beyond {ℓ} : {A : Type ℓ} (n : ℕ) (xs : List A) → length xs ≤ n → drop n xs ≡ []
drop_beyond zero [] h = refl
drop_beyond zero (x ∷ xs) h = absurd (omega arith)
drop_beyond (suc n) [] h = refl
drop_beyond (suc n) (x ∷ xs) h = drop_beyond n xs (omega arith)

pub drop-nil {ℓ} : {A : Type ℓ} (n : ℕ) → drop {A = A} n [] ≡ []
drop-nil zero = refl
drop-nil (suc n) = refl

pub drop-drop {ℓ} : {A : Type ℓ} (m n : ℕ) (xs : List A) → drop n (drop m xs) ≡ drop (m + n) xs
drop-drop zero n xs = ap (λ k. drop k xs) (omega arith)
drop-drop (suc m) zero [] = sym (drop-nil (suc m + 0))
drop-drop (suc m) (suc n) [] = sym (drop-nil (suc m + suc n))
drop-drop (suc m) n (x ∷ xs) =
    let e : suc (m + n) ≡ suc m + n = omega arith in drop-drop m n xs ∙ ap (λ k. drop k (x ∷ xs)) e

pub take-nil {ℓ} : {A : Type ℓ} (n : ℕ) → take {A = A} n [] ≡ []
take-nil zero = refl
take-nil (suc n) = refl

pub take-add {ℓ} :
    {A : Type ℓ} (m n : ℕ) (xs : List A) → take (m + n) xs ≡ take m xs ++ take n (drop m xs)
take-add zero n xs = ap (λ k. take k xs) (omega arith)
take-add (suc m) n [] = take-nil (suc m + n) ∙ sym (take-nil n)
take-add (suc m) n (x ∷ xs) =
    let e : suc m + n ≡ suc (m + n) = omega arith in
    ap (λ k. take k (x ∷ xs)) e ∙ ap (λ r. x ∷ r) (take-add m n xs)

-- Taking more than there is takes everything.
pub take-min {ℓ} :
    {A : Type ℓ} (n k : ℕ) (xs : List A) → length xs ≤ k → take (min n k) xs ≡ take n xs
take-min n k [] h = take-nil (min n k) ∙ sym (take-nil n)
take-min zero k (x ∷ xs) h = let e : min 0 k ≡ 0 = omega arith in ap (λ j. take j (x ∷ xs)) e
take-min (suc n) zero (x ∷ xs) h = absurd (omega arith)
take-min (suc n) (suc k) (x ∷ xs) h =
    let e : min (suc n) (suc k) ≡ suc (min n k) = omega arith in
    ap (λ j. take j (x ∷ xs)) e ∙ ap (λ r. x ∷ r) (take-min n k xs (omega arith))
