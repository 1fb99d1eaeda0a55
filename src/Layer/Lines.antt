-- ===== src/Layer/Lines.antt =====
-- The two halves of text storage in src/layer/cow.rs: `write_text_file` cuts a text into lines with
-- `str::lines` and records whether it ends with a newline, and `read_text_file` joins them again.
pub mod Glue
pub mod Laws
mod Examples
use tarbox.Base.{
  ℕ, onto_first, Bytes, bytes, bytes_eq, Bool, true, false, not, ◌&&◌, ◌||◌, Option, none, some,
  List, [], ◌∷◌, ◌++◌, map, is_empty, ◌==◌, if◌then◌else◌,
}

abbrev pub lf : ℕ
lf = 10

abbrev pub cr : ℕ
cr = 13

-- `split_inclusive('\n')`
unfoldable pub split_inclusive : Bytes → List Bytes
split_inclusive [] = []
split_inclusive (x ∷ xs) =
    let rest = split_inclusive xs in if x == lf then (x ∷ []) ∷ rest else onto_first x rest

abbrev pub prefix_with : ℕ → Option Bytes → Option Bytes
prefix_with x none = none
prefix_with x (some s) = some (x ∷ s)

-- `strip_suffix(c)`
abbrev pub strip_suffix : ℕ → Bytes → Option Bytes
strip_suffix c [] = none
strip_suffix c (x ∷ []) = if x == c then some [] else none
strip_suffix c (x ∷ y ∷ ys) = prefix_with x (strip_suffix c (y ∷ ys))

abbrev pub or_self : Bytes → Option Bytes → Bytes
or_self s none = s
or_self s (some t) = t

-- A piece without its `\n` or `\r\n`.
abbrev pub chomp_at : Bytes → Option Bytes → Bytes
chomp_at piece none = piece
chomp_at piece (some s) = or_self s (strip_suffix cr s)

abbrev pub chomp : Bytes → Bytes
chomp piece = chomp_at piece (strip_suffix lf piece)

-- `text.lines()`
unfoldable pub lines : Bytes → List Bytes
unfolding split_inclusive
lines text = map chomp (split_inclusive text)

-- `text.ends_with('\n')`, which `|| text.ends_with("\r\n")` does not widen.
unfoldable pub ends_with_newline : Bytes → Bool
ends_with_newline [] = false
ends_with_newline (x ∷ []) = x == lf
ends_with_newline (x ∷ y ∷ ys) = ends_with_newline (y ∷ ys)

-- `lines.join(line_ending)`
unfoldable pub join_lines : Bytes → List Bytes → Bytes
join_lines sep [] = []
join_lines sep (l ∷ []) = l
join_lines sep (l ∷ m ∷ ls) = l ++ (sep ++ join_lines sep (m ∷ ls))

-- The `match metadata.line_ending.as_str()` of `read_text_file`.
unfoldable pub separator : Bytes → Bytes
unfolding bytes_eq
separator ending =
    if bytes_eq ending (bytes "crlf")
    then cr ∷ lf ∷ []
    else if bytes_eq ending (bytes "cr")
    then cr ∷ []
    else lf ∷ []

-- The end of `read_text_file`, from the lines and the metadata.
unfoldable pub reassemble : Bytes → Bool → List Bytes → Bytes
unfolding join_lines separator
reassemble ending trailing ls =
    let result = join_lines (separator ending) ls in
    if trailing && not (is_empty result) then result ++ separator ending else result
