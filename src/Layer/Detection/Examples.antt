-- ===== src/Layer/Detection/Examples.antt =====
-- Detection on short files.
use tarbox.Base.{Bytes, bytes, starts_with, ◌∷◌, ◌++◌, ◌≡◌, refl, is_utf8}
use tarbox.Layer.Lines.{lf}
use tarbox.Layer.Detection.{
  default_config, detect, detect_encoding, text, ascii_encoding, lf_ending, count_non_printable,
  analyze_lines, scan,
}
use tarbox.Layer.Detection.Endings.{Describes, analyze_lines-Describes}

abbrev note : Bytes
note = bytes "a" ++ lf ∷ bytes "b"

analyze_lines-Describes_example :
    Describes note (analyze_lines note).0 (analyze_lines note).1 (analyze_lines note).2
analyze_lines-Describes_example = analyze_lines-Describes note

note_is_text : detect default_config note ≡ text ascii_encoding lf_ending 2
unfolding detect detect_encoding analyze_lines scan count_non_printable is_utf8 starts_with
note_is_text = refl
