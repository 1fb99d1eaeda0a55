-- ===== src/Base/Assoc.antt =====
-- `HashMap` as an association list: an insertion replaces what the key had.
use mathlib.Core.Path.{◌≡◌}
use mathlib.Core.Logic.{◌↔◌}
use mathlib.Core.Bool.{Bool, true}
use mathlib.Core.Option.{Option, none, some}
use mathlib.Core.List.{List, [], ◌∷◌}
use Prim.Native.Nat.{ℕ}
use native.Mathlib.Omega.{arith}
use tarbox.Base.Tests.{◌==◌, ==_iff, if◌then◌else◌}
use tarbox.Base.Text.{Bytes, bytes_eq, bytes_eq_iff}

-- Keys with a Boolean equality.
pub record Key {ℓ} (K : Type ℓ) : Type ℓ where
  pub same : K → K → Bool
  pub same_iff : (a b : K) → (same a b ≡ true) ↔ (a ≡ b)

instance abbrev pub number_key : Key ℕ
number_key = record { same = ◌==◌; same_iff = ==_iff }

instance abbrev pub text_key : Key Bytes
text_key = record { same = bytes_eq; same_iff = bytes_eq_iff }

module _ {ℓ κ} {K : Type ℓ} {V : Type κ} ⦃e : Key K⦄ where
  -- `map.get(k)`
  unfoldable pub get_key : K → List (K × V) → Option V
  get_key k [] = none
  get_key k ((j, v) ∷ m) = let rest = get_key k m in if e.same j k then some v else rest

  -- `map.remove(k)`
  unfoldable pub remove_key : K → List (K × V) → List (K × V)
  remove_key k [] = []
  remove_key k ((j, v) ∷ m) =
      let rest = remove_key k m in if e.same j k then rest else (j, v) ∷ rest

  -- `map.insert(k, v)`
  unfoldable pub insert_key : K → V → List (K × V) → List (K × V)
  unfolding remove_key
  insert_key k v m = (k, v) ∷ remove_key k m

  pub get_key-remove_key :
      (k j : K) (m : List (K × V))
      → get_key j (remove_key k m) ≡ (if e.same k j then none else get_key j m)
  unfolding get_key remove_key
  get_key-remove_key k j [] = ground arith
  get_key-remove_key k j ((i, v) ∷ m) =
      ground (arith, get_key-remove_key k j m, e.same_iff i k, e.same_iff i j, e.same_iff k j)

  pub get_key-insert_key :
      (k j : K) (v : V) (m : List (K × V))
      → get_key j (insert_key k v m) ≡ (if e.same k j then some v else get_key j m)
  unfolding get_key insert_key
  get_key-insert_key k j v m = ground (arith, get_key-remove_key k j m)
