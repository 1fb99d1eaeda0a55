-- ===== src/Layer/Detection.antt =====
-- src/layer/detection.rs: is a file stored as text or as binary? The ratios of the source are
-- floating-point quotients held against 0.05 and 0.9; here both sides are multiplied out, which
-- decides the same way for the sizes that pass the size limit of 10 MB.
mod Endings
mod Limits
mod Examples
use tarbox.Base.{
  ℕ, zero, suc, ◌+◌, ◌*◌, max, Bytes, bytes, contains, starts_with, drop, Bool, true, false, not,
  ◌&&◌, ◌||◌, Option, none, some, List, [], ◌∷◌, ◌++◌, length, keep, is_empty, ◌==◌, ltb, leb,
  if◌then◌else◌, in_range, is_utf8, latin1,
}
use tarbox.Layer.Lines.{cr, lf}

pub record DetectionConfig : Type 0 where
  pub max_text_file_size : ℕ
  pub max_line_length : ℕ
  pub max_non_printable_percent : ℕ

-- `DetectionConfig::default()`
abbrev pub default_config : DetectionConfig
default_config = record {
  max_text_file_size = 10 * 1024 * 1024;
  max_line_length = 10 * 1024;
  max_non_printable_percent = 5;
}

pub data TextEncoding : Type 0 where
  utf8_encoding ascii_encoding latin1_encoding unknown_encoding : TextEncoding

pub data LineEnding : Type 0 where
  lf_ending crlf_ending cr_ending mixed_ending no_ending : LineEnding

-- The `Display` of the two, which is what the database stores.
unfoldable pub encoding_name : TextEncoding → Bytes
encoding_name utf8_encoding = bytes "utf-8"
encoding_name ascii_encoding = bytes "ascii"
encoding_name latin1_encoding = bytes "latin-1"
encoding_name unknown_encoding = bytes "unknown"

unfoldable pub ending_name : LineEnding → Bytes
ending_name lf_ending = bytes "LF"
ending_name crlf_ending = bytes "CRLF"
ending_name cr_ending = bytes "CR"
ending_name mixed_ending = bytes "LF"
ending_name no_ending = bytes "LF"

pub data FileTypeInfo : Type 0 where
  text : TextEncoding → LineEnding → ℕ → FileTypeInfo
  binary : FileTypeInfo

-- `data.iter().all(|&b| b < 128)`
abbrev pub is_ascii : Bytes → Bool
is_ascii [] = true
is_ascii (b ∷ bs) = ltb b 128 && is_ascii bs

abbrev pub is_space : ℕ → Bool
is_space b = b == 9 || b == lf || b == cr

-- `!c.is_control() || c == '\n' || c == '\r' || c == '\t'` for a Latin-1 character.
abbrev pub is_readable : ℕ → Bool
is_readable b = not (ltb b 0x20 || in_range 0x7f 0x9f b) || is_space b

abbrev pub bom : Bytes
bom = 0xef ∷ 0xbb ∷ 0xbf ∷ []

abbrev pub without_bom : Bytes → Bytes
without_bom d = if starts_with d bom then drop 3 d else d

-- The decoding of what is behind the byte order mark.
abbrev pub decode : Bytes → TextEncoding × Option Bytes
decode t =
    if is_utf8 t
    then (if is_ascii t then ascii_encoding else utf8_encoding, some t)
    else if ltb (9 * length (latin1 t)) (10 * length (keep is_readable t))
    then (latin1_encoding, some (latin1 t))
    else (unknown_encoding, none)

unfoldable pub detect_encoding : Bytes → TextEncoding × Option Bytes
detect_encoding d = decode (without_bom d)

abbrev pub is_printable : ℕ → Bool
is_printable b = is_space b || in_range 0x20 0x7e b || leb 0x80 b

unfoldable pub count_non_printable : Bytes → ℕ
count_non_printable d = length (keep (λ b. not (is_printable b)) d)

-- The variables of the loop of `analyze_lines`.
pub record Scan : Type 0 where
  pub lf_count : ℕ
  pub crlf_count : ℕ
  pub cr_only_count : ℕ
  pub max_line_len : ℕ
  pub current_line_len : ℕ
  pub line_count : ℕ

abbrev pub new_scan : Scan
new_scan = record {
  lf_count = 0;
  crlf_count = 0;
  cr_only_count = 0;
  max_line_len = 0;
  current_line_len = 0;
  line_count = 1;
}

-- The end of a line: its length counts towards the longest.
abbrev pub end_line : Scan → Scan
end_line s = record s {
  max_line_len = max s.max_line_len s.current_line_len;
  current_line_len = 0;
  line_count = s.line_count + 1;
}

pub data Token : Type 0 where
  crlf_token cr_token lf_token other_token : Token

-- What stands at a byte, given the byte behind it.
abbrev pub token : ℕ → Option ℕ → Token
token x none = if x == cr then cr_token else if x == lf then lf_token else other_token
token x (some y) =
    if x == cr
    then (if y == lf then crlf_token else cr_token)
    else if x == lf
    then lf_token
    else other_token

abbrev pub take_token : Token → Scan → Scan
take_token crlf_token s = end_line (record s { crlf_count = s.crlf_count + 1 })
take_token cr_token s = end_line (record s { cr_only_count = s.cr_only_count + 1 })
take_token lf_token s = end_line (record s { lf_count = s.lf_count + 1 })
take_token other_token s = record s { current_line_len = s.current_line_len + 1 }

-- The loop. A character of several bytes counts `len_utf8`, so the bytes can be taken singly.
unfoldable pub scan : Bytes → Scan → Scan
scan [] s = s
scan (x ∷ []) s = take_token (token x none) s
scan (x ∷ y ∷ ys) s = elim (token x (some y)) [
  | crlf_token ↦ scan ys (take_token crlf_token s)
  | cr_token ↦ scan (y ∷ ys) (take_token cr_token s)
  | lf_token ↦ scan (y ∷ ys) (take_token lf_token s)
  | other_token ↦ scan (y ∷ ys) (take_token other_token s)
]

-- The predominant line ending.
abbrev pub ending_of : ℕ → ℕ → ℕ → LineEnding
ending_of lfs crlfs crs =
    if lfs + crlfs + crs == 0
    then no_ending
    else if ltb 0 crlfs && (lfs == 0 && crs == 0)
    then crlf_ending
    else if ltb 0 lfs && (crlfs == 0 && crs == 0)
    then lf_ending
    else if ltb 0 crs && (lfs == 0 && crlfs == 0)
    then cr_ending
    else mixed_ending

unfoldable pub analyze_lines : Bytes → LineEnding × ℕ × ℕ
unfolding scan
analyze_lines t =
    let s = scan t new_scan in
    (
      ending_of s.lf_count s.crlf_count s.cr_only_count,
      s.line_count,
      max s.max_line_len s.current_line_len,
    )

-- The last steps of `detect`, once the text is decoded.
abbrev pub judge : DetectionConfig → Bytes → TextEncoding → LineEnding × ℕ × ℕ → FileTypeInfo
judge c d e (ending, count, longest) =
    if ltb (c.max_non_printable_percent * length d) (100 * count_non_printable d)
    then binary
    else if ltb c.max_line_length longest
    then binary
    else text e ending count

abbrev pub judge_decoded : DetectionConfig → Bytes → TextEncoding × Option Bytes → FileTypeInfo
judge_decoded c d (e, none) = binary
judge_decoded c d (e, some t) = judge c d e (analyze_lines t)

unfoldable pub detect : DetectionConfig → Bytes → FileTypeInfo
detect c d =
    if is_empty d
    then text utf8_encoding no_ending 0
    else if ltb c.max_text_file_size (length d)
    then binary
    else if contains 0 d
    then binary
    else judge_decoded c d (detect_encoding d)
