-- ===== src/Layer/Lines/Examples.antt =====
-- Texts that are cut into lines and put together again.
use tarbox.Base.{Bytes, bytes, bytes_eq, [], ◌∷◌, ◌++◌, ◌≡◌, ◌<◌, refl, length}
use tarbox.Layer.Lines.{lf, cr, separator}
use tarbox.Layer.Lines.Glue.{to_lf}
use tarbox.Layer.Lines.Laws.{to_lf-shorter, has_crlf}

abbrev dos : Bytes
dos = bytes "a" ++ cr ∷ lf ∷ bytes "b"

plain_crlf : separator (bytes "CRLF") ≡ lf ∷ []
unfolding separator bytes_eq
plain_crlf = refl

to_lf-shorter_example : length (to_lf dos) < length dos
unfolding has_crlf
to_lf-shorter_example = to_lf-shorter dos refl
