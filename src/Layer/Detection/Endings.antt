-- ===== src/Layer/Detection/Endings.antt =====
-- What `analyze_lines` counts.
use tarbox.Base.{
  ℕ, ◌+◌, ◌<◌, ◌≤◌, max, ◌≡◌, ◌↔◌, refl, Bytes, true, false, ◌||◌, [], ◌∷◌, ◌==◌, if◌then◌else◌,
  arith,
}
use tarbox.Layer.Lines.{cr, lf}
use tarbox.Layer.Lines.Glue.{at_crlf}
use tarbox.Layer.Lines.Laws.{has_crlf}
use tarbox.Layer.Detection.{
  LineEnding, lf_ending, crlf_ending, cr_ending, no_ending, Scan, new_scan, crlf_token, cr_token,
  lf_token, other_token, take_token, scan, ending_of, analyze_lines,
}

abbrev pub count : ℕ → Bytes → ℕ
count c [] = 0
count c (x ∷ xs) = (if x == c then 1 else 0) + count c xs

abbrev pub count_crlf : Bytes → ℕ
count_crlf [] = 0
count_crlf (x ∷ xs) = (if at_crlf x xs then 1 else 0) + count_crlf xs

-- The longest stretch without `\r` and `\n`, where `n` bytes stand in front of the text.
abbrev pub longest : ℕ → Bytes → ℕ
longest n [] = n
longest n (x ∷ xs) =
    let broken = max n (longest 0 xs) in
    let onward = longest (n + 1) xs in if x == cr || x == lf then broken else onward

-- How the counters relate to the rest of the text when the loop ends.
record Counts (d : Bytes) (s r : Scan) : Type 0 where
  crs : r.crlf_count + r.cr_only_count ≡ s.crlf_count + s.cr_only_count + count cr d
  lfs : r.lf_count + r.crlf_count ≡ s.lf_count + s.crlf_count + count lf d
  crlfs : r.crlf_count ≡ s.crlf_count + count_crlf d
  total : r.line_count + count_crlf d ≡ s.line_count + count cr d + count lf d
  widest : max r.max_line_len r.current_line_len ≡ max s.max_line_len (longest s.current_line_len d)

scan-Counts : (d : Bytes) (s : Scan) → Counts d s (scan d s)
unfolding scan
scan-Counts [] s = omega arith
scan-Counts (x ∷ []) s = ground arith
scan-Counts (x ∷ y ∷ ys) s = ground (
  arith,
  scan-Counts ys (take_token crlf_token s),
  scan-Counts (y ∷ ys) (take_token cr_token s),
  scan-Counts (y ∷ ys) (take_token lf_token s),
  scan-Counts (y ∷ ys) (take_token other_token s),
)

count_crlf-le : (d : Bytes) → (count_crlf d ≤ count cr d) × (count_crlf d ≤ count lf d)
count_crlf-le [] = omega arith
count_crlf-le (x ∷ []) = ground arith
count_crlf-le (x ∷ y ∷ ys) = ground (arith, count_crlf-le (y ∷ ys), count_crlf-le ys)

-- The line ending that is reported, by what the text contains: none at all; only `\n`; only
-- `\r\n`; only lone `\r`. The number of lines is one more than the number of line ends, and the
-- length reported is the longest stretch of bytes between line ends.
pub record Describes (d : Bytes) (e : LineEnding) (n m : ℕ) : Type 0 where
  pub none_iff : (e ≡ no_ending) ↔ ((count cr d ≡ 0) × (count lf d ≡ 0))
  pub lf_iff : (e ≡ lf_ending) ↔ ((count cr d ≡ 0) × (0 < count lf d))
  pub crlf_iff :
      (e ≡ crlf_ending)
      ↔ ((0 < count_crlf d) × (count cr d ≡ count_crlf d) × (count lf d ≡ count_crlf d))
  pub cr_iff : (e ≡ cr_ending) ↔ ((0 < count cr d) × (count lf d ≡ 0))
  pub lines_counted : n + count_crlf d ≡ 1 + count cr d + count lf d
  pub longest_found : m ≡ longest 0 d

module _ (a b c : ℕ) {crs lfs crlfs : ℕ} (p : b + c ≡ crs) (q : a + b ≡ lfs) (r : b ≡ crlfs) where
  ending-none : (ending_of a b c ≡ no_ending) ↔ ((crs ≡ 0) × (lfs ≡ 0))
  ending-none = ground arith

  ending-lf : (ending_of a b c ≡ lf_ending) ↔ ((crs ≡ 0) × (0 < lfs))
  ending-lf = ground arith

  ending-crlf : (ending_of a b c ≡ crlf_ending) ↔ ((0 < crlfs) × (crs ≡ crlfs) × (lfs ≡ crlfs))
  ending-crlf = ground arith

  ending-cr : (ending_of a b c ≡ cr_ending) ↔ ((0 < crs) × (lfs ≡ 0))
  ending-cr = ground arith

-- For every text `analyze_lines` reports the line ending by what the text contains (none, only
-- `\n`, only `\r\n`, only lone `\r`, or a mixture), one line more than there are line ends, and the
-- longest stretch of bytes between line ends.
pub analyze_lines-Describes :
    (d : Bytes) → Describes d (analyze_lines d).0 (analyze_lines d).1 (analyze_lines d).2
unfolding analyze_lines
analyze_lines-Describes d =
    let s = scan d new_scan in
    let k = scan-Counts d new_scan in
    let p : s.crlf_count + s.cr_only_count ≡ count cr d = omega (arith, k.crs) in
    let q : s.lf_count + s.crlf_count ≡ count lf d = omega (arith, k.lfs) in
    let r : s.crlf_count ≡ count_crlf d = omega (arith, k.crlfs) in
    record {
      none_iff = ending-none s.lf_count s.crlf_count s.cr_only_count p q r;
      lf_iff = ending-lf s.lf_count s.crlf_count s.cr_only_count p q r;
      crlf_iff = ending-crlf s.lf_count s.crlf_count s.cr_only_count p q r;
      cr_iff = ending-cr s.lf_count s.crlf_count s.cr_only_count p q r;
      lines_counted = omega (arith, k.total);
      longest_found = omega (arith, k.widest);
    }

-- A text without `\r` has no `\r\n`.
pub crlf_needs_cr : (d : Bytes) → count cr d ≡ 0 → has_crlf d ≡ false
unfolding has_crlf
crlf_needs_cr [] h = refl
crlf_needs_cr (x ∷ xs) h = ground (arith, crlf_needs_cr xs)

pub crlf_counted : (d : Bytes) → 0 < count_crlf d → has_crlf d ≡ true
unfolding has_crlf
crlf_counted [] h = absurd (omega arith)
crlf_counted (x ∷ xs) h = ground (arith, crlf_counted xs)
