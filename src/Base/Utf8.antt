-- ===== src/Base/Utf8.antt =====
-- UTF-8 as the standard library reads it: well-formed byte sequences, and Latin-1 re-encoded.
use Prim.Native.Nat.{ℕ, zero, suc, ◌+◌, ◌/◌, ◌%◌}
use mathlib.Core.Path.{◌≡◌, refl}
use mathlib.Core.Bool.{Bool, true, false, ◌&&◌}
use mathlib.Core.Option.{Option, none, some}
use mathlib.Core.List.{[], ◌∷◌}
use tarbox.Base.Tests.{ltb, leb, ◌==◌, if◌then◌else◌}
use tarbox.Base.Text.{Bytes}

abbrev pub in_range : ℕ → ℕ → ℕ → Bool
in_range lo hi b = leb lo b && leb b hi

-- What follows a first byte: how many bytes, and the bounds on the next of them.
abbrev lead : ℕ → Option (ℕ × ℕ × ℕ)
lead b =
    if ltb b 0x80
    then some (0, 0x80, 0xbf)
    else if in_range 0xc2 0xdf b
    then some (1, 0x80, 0xbf)
    else if b == 0xe0
    then some (2, 0xa0, 0xbf)
    else if b == 0xed
    then some (2, 0x80, 0x9f)
    else if in_range 0xe1 0xef b
    then some (2, 0x80, 0xbf)
    else if b == 0xf0
    then some (3, 0x90, 0xbf)
    else if in_range 0xf1 0xf3 b
    then some (3, 0x80, 0xbf)
    else if b == 0xf4
    then some (3, 0x80, 0x8f)
    else none

utf8_from : ℕ → ℕ → ℕ → Bytes → Bool
utf8_from zero lo hi [] = true
utf8_from (suc n) lo hi [] = false
utf8_from zero lo hi (b ∷ bs) = elim (lead b) [ none ↦ false | some (n, l, h) ↦ utf8_from n l h bs ]
utf8_from (suc n) lo hi (b ∷ bs) = elim (in_range lo hi b) [
  | true ↦ utf8_from n 0x80 0xbf bs
  | false ↦ false
]

-- `str::from_utf8(bytes).is_ok()`
unfoldable pub is_utf8 : Bytes → Bool
unfolding utf8_from
is_utf8 = utf8_from 0 0x80 0xbf

-- `bytes.iter().map(|&b| b as char).collect::<String>()`, encoded.
unfoldable pub latin1 : Bytes → Bytes
latin1 [] = []
latin1 (b ∷ bs) =
    let rest = latin1 bs in
    if ltb b 0x80 then b ∷ rest else (0xc0 + b / 64) ∷ (0x80 + b % 64) ∷ rest

-- The byte order mark is well-formed, and nothing of it is left over.
pub is_utf8-bom : (t : Bytes) → is_utf8 (0xef ∷ 0xbb ∷ 0xbf ∷ t) ≡ is_utf8 t
unfolding is_utf8
is_utf8-bom t = refl
