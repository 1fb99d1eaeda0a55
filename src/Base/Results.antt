-- ===== src/Base/Results.antt =====
-- Rust's `Result<T, E>` with the `?` operator as bind, and the same for `Option`.
use mathlib.Core.Path.{◌≡◌, refl}
use mathlib.Core.Option.{Option, none, some}
use mathlib.Core.Logic.{◌⊎◌, inl, inr}
use mathlib.Core.Bool.{Bool, true, false}

pub data Result {ℓ κ} (E : Type κ) (A : Type ℓ) : Type (ℓ ⊔ κ) where
  ok : A → Result E A
  err : E → Result E A

module _ {E : Type 0} where
  infixl 5 ◌>>=◌
  -- `r?`, and what the function does next.
  abbrev pub ◌>>=◌ {ℓ κ} : {A : Type ℓ} {B : Type κ} → Result E A → (A → Result E B) → Result E B
  err e >>= next = err e
  ok a >>= next = next a

  -- `o.ok_or(e)`
  abbrev pub ok_or {ℓ} : {A : Type ℓ} → Option A → E → Result E A
  ok_or (some a) e = ok a
  ok_or none e = err e

  -- What a chain of two steps returned, its steps returned.
  pub >>=-eq-ok {ℓ κ} :
      {A : Type ℓ} {B : Type κ} (first : Result E A) (next : A → Result E B) {b : B}
      → (first >>= next) ≡ ok b
      → (a : A) × (first ≡ ok a) × (next a ≡ ok b)
  >>=-eq-ok (err e) next h = cc h
  >>=-eq-ok (ok a) next h = (a, refl, h)

pub Result-cases {ℓ κ} :
    {E : Type κ} {A : Type ℓ} (r : Result E A) → ((a : A) × (r ≡ ok a)) ⊎ ((e : E) × (r ≡ err e))
Result-cases (ok a) = inl (a, refl)
Result-cases (err e) = inr (e, refl)

-- `o.is_some()`
abbrev pub is_some {ℓ} : {A : Type ℓ} → Option A → Bool
is_some (some a) = true
is_some none = false
