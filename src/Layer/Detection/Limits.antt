-- ===== src/Layer/Detection/Limits.antt =====
-- What `detect` guarantees of a file that it calls text.
use tarbox.Base.{
  ℕ, ◌*◌, ◌≤◌, ◌≡◌, ◌≢◌, refl, Bytes, contains, true, false, Option, none, some, [], ◌∷◌, length,
  is_empty, is_utf8, starts_with, drop, arith, Bool-cases, inl, inr, ap, ◌∙◌, is_utf8-bom,
}
use tarbox.Layer.Detection.{
  DetectionConfig, TextEncoding, ascii_encoding, latin1_encoding, LineEnding, text, is_ascii,
  without_bom, bom, decode, detect_encoding, count_non_printable, analyze_lines, judge,
  judge_decoded, detect,
}
use tarbox.Layer.Detection.Endings.{longest, Describes, analyze_lines-Describes}

judge-text :
    (c : DetectionConfig) (d : Bytes) (e e' : TextEncoding) (a : LineEnding × ℕ × ℕ)
    (l : LineEnding) (n : ℕ)
    → judge c d e a ≡ text e' l n
    → (e ≡ e')
      × (a.0 ≡ l)
      × (a.1 ≡ n)
      × (a.2 ≤ c.max_line_length)
      × (100 * count_non_printable d ≤ c.max_non_printable_percent * length d)
judge-text c d e e' a l n h = ground arith

bom-append : (d : Bytes) → starts_with d bom ≡ true → d ≡ 0xef ∷ 0xbb ∷ 0xbf ∷ drop 3 d
unfolding starts_with
bom-append [] h = cc
bom-append (a ∷ []) h = ground arith
bom-append (a ∷ b ∷ []) h = ground arith
bom-append (a ∷ b ∷ c ∷ d) h = ground arith

is_utf8-without_bom : (d : Bytes) → is_utf8 d ≡ is_utf8 (without_bom d)
is_utf8-without_bom d = elim (Bool-cases (starts_with d bom)) [
  | inl e ↦ rw e (ap is_utf8 (bom-append d e) ∙ is_utf8-bom (drop 3 d))
  | inr e ↦ rw e refl
]

encoding_sound :
    (d : Bytes) (e : TextEncoding) (t : Bytes)
    → detect_encoding d ≡ (e, some t)
    → (e ≡ ascii_encoding → is_ascii (without_bom d) ≡ true)
      × (e ≢ latin1_encoding → is_utf8 d ≡ true)
unfolding detect_encoding
encoding_sound d e t h = rw (is_utf8-without_bom d) (go (without_bom d) h)
  where
    go :
        (t' : Bytes)
        → decode t' ≡ (e, some t)
        → (e ≡ ascii_encoding → is_ascii t' ≡ true) × (e ≢ latin1_encoding → is_utf8 t' ≡ true)
    go t' k = (λ a. ground arith, λ a. ground arith)

judge_decoded-text :
    (c : DetectionConfig) (d : Bytes) (p : TextEncoding × Option Bytes) (e : TextEncoding)
    (l : LineEnding) (n : ℕ)
    → judge_decoded c d p ≡ text e l n
    → (t : Bytes) × (p ≡ (e, some t)) × (judge c d e (analyze_lines t) ≡ text e l n)
judge_decoded-text c d (e', none) e l n h = cc
judge_decoded-text c d (e', some t) e l n h =
    let same = (judge-text c d e' e (analyze_lines t) l n h).0 in (t, ground arith, ground arith)

-- A non-empty file that `detect` calls text holds no NUL, is within the size limit and has at
-- most the allowed share of control bytes. It decodes to a text that has the line ending and the
-- number of lines reported and keeps the line limit. It is UTF-8 unless it is called Latin-1, and
-- ASCII behind the byte order mark if it is called so.
pub detect-text :
    (c : DetectionConfig) (d : Bytes) (e : TextEncoding) (l : LineEnding) (n : ℕ)
    → is_empty d ≡ false
    → detect c d ≡ text e l n
    → (contains 0 d ≡ false)
      × (length d ≤ c.max_text_file_size)
      × (100 * count_non_printable d ≤ c.max_non_printable_percent * length d)
      × ((t : Bytes) × (detect_encoding d ≡ (e, some t))
          × Describes t l n (longest 0 t)
          × (longest 0 t ≤ c.max_line_length))
      × (e ≡ ascii_encoding → is_ascii (without_bom d) ≡ true)
      × (e ≢ latin1_encoding → is_utf8 d ≡ true)
unfolding detect
detect-text c d e l n ne h =
    let j : judge_decoded c d (detect_encoding d) ≡ text e l n = ground arith in
    let (t, decoded, judged) = judge_decoded-text c d (detect_encoding d) e l n j in
    let (_, el, en, fits, few) = judge-text c d e e (analyze_lines t) l n judged in
    let s = analyze_lines-Describes t in
    let (ascii, utf8) = encoding_sound d e t decoded in
    (
      ground arith,
      ground arith,
      few,
      (t, decoded, rw (← el, ← en, ← s.longest_found) s, rw (← s.longest_found) fits),
      ascii,
      utf8,
    )
