-- ===== src/Composition/LayerChain/Examples.antt =====
-- A snapshot of the mount of a tenant, and of one that is not there.
use tarbox.Base.{ℕ, ◌≡◌, refl, Bytes, bytes, Bool, true, [], ◌∷◌, All}
use tarbox.Storage.Sample.{mounted_db}
use tarbox.Storage.MountEntries.Steps.{here}
use tarbox.Composition.LayerChain.{batch_snapshot}
use tarbox.Composition.LayerChain.Unset.{batch_snapshot-skips, IsSkipped}

abbrev first : Bytes → Bytes → Bool
first a b = true

abbrev digits : ℕ → Bytes
digits n = n ∷ []

batch_snapshot-skips_example :
    ((batch_snapshot digits 7 (bytes "w" ∷ bytes "x" ∷ []) (bytes "v1") true mounted_db).1
      ≡ mounted_db)
    × All IsSkipped
        (batch_snapshot digits 7 (bytes "w" ∷ bytes "x" ∷ []) (bytes "v1") true mounted_db).0
batch_snapshot-skips_example =
    batch_snapshot-skips digits 7 (bytes "v1") true {collate = first} mounted_db mounted_db
      (bytes "w" ∷ bytes "x" ∷ []) ((tt, tt), (refl, tt)) here
