-- ===== src/Base/Trim.antt =====
-- `str::trim`, which takes characters with the property White_Space off both ends, and decimals.
use Prim.Native.Nat.{ℕ, zero, suc, ◌+◌, ◌/◌, ◌%◌}
use mathlib.Core.Option.{Option, none, some}
use mathlib.Core.List.{List, [], ◌∷◌, ◌++◌, map}
use tarbox.Base.Tests.{ltb, ◌==◌, if◌then◌else◌}
use tarbox.Base.Lists.{length}
use tarbox.Base.Text.{Bytes}

-- What is left of the text behind a prefix.
unfoldable pub strip_text : Bytes → Bytes → Option Bytes
strip_text [] s = some s
strip_text (p ∷ ps) [] = none
strip_text (p ∷ ps) (x ∷ xs) = let rest = strip_text ps xs in if p == x then rest else none

abbrev range_of : ℕ → ℕ → List Bytes
range_of zero b = []
range_of (suc n) b = (0xe2 ∷ 0x80 ∷ b ∷ []) ∷ range_of n (b + 1)

-- The 25 characters with the property White_Space, in UTF-8.
abbrev pub white_spaces : List Bytes
white_spaces =
    (0x09 ∷ [])
    ∷ (0x0a ∷ [])
    ∷ (0x0b ∷ [])
    ∷ (0x0c ∷ [])
    ∷ (0x0d ∷ [])
    ∷ (0x20 ∷ [])
    ∷ (0xc2 ∷ 0x85 ∷ [])
    ∷ (0xc2 ∷ 0xa0 ∷ [])
    ∷ (0xe1 ∷ 0x9a ∷ 0x80 ∷ [])
    ∷ (0xe2 ∷ 0x80 ∷ 0xa8 ∷ [])
    ∷ (0xe2 ∷ 0x80 ∷ 0xa9 ∷ [])
    ∷ (0xe2 ∷ 0x80 ∷ 0xaf ∷ [])
    ∷ (0xe2 ∷ 0x81 ∷ 0x9f ∷ [])
    ∷ (0xe3 ∷ 0x80 ∷ 0x80 ∷ [])
    ∷ range_of 11 0x80

abbrev pub backwards : Bytes → Bytes
backwards [] = []
backwards (x ∷ xs) = backwards xs ++ x ∷ []

unfoldable pub strip_any : List Bytes → Bytes → Option Bytes
unfolding strip_text
strip_any [] s = none
strip_any (w ∷ ws) s = elim (strip_text w s) [ some rest ↦ some rest | none ↦ strip_any ws s ]

-- Each round takes a byte at least, so the length is fuel enough.
unfoldable pub trim_from : ℕ → List Bytes → Bytes → Bytes
unfolding strip_any
trim_from zero ws s = s
trim_from (suc fuel) ws s = elim (strip_any ws s) [ some rest ↦ trim_from fuel ws rest | none ↦ s ]

unfoldable pub trim : Bytes → Bytes
unfolding trim_from
trim s =
    let front = trim_from (length s) white_spaces s in
    backwards (trim_from (length front) (map backwards white_spaces) (backwards front))

-- `n.to_string()`: the digits in front of those that are there.
unfoldable pub digits_from : ℕ → ℕ → Bytes → Bytes
digits_from zero n acc = acc
digits_from (suc fuel) n acc =
    let rest = digits_from fuel (n / 10) ((48 + n % 10) ∷ acc) in
    if ltb n 10 then (48 + n) ∷ acc else rest

-- A number has no more digits than its successor says.
unfoldable pub decimal : ℕ → Bytes
unfolding digits_from
decimal n = digits_from (suc n) n []
