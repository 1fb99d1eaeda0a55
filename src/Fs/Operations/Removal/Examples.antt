-- ===== src/Fs/Operations/Removal/Examples.antt =====
-- Removal in the sample database: a file, and a directory that is not empty.
use tarbox.Base.{bytes, [], ◌≡◌, ◌≢◌, ◌⊎◌, refl, ok, err, true, Bytes, Bool}
use tarbox.Path.{directory_not_empty}
use tarbox.Storage.Models.{Db}
use tarbox.Storage.Sample.{sample_db, sample_dir}
use tarbox.Fs.Operations.{list_directory, remove_directory}
use tarbox.Fs.Operations.Examples.{mounted, parent_resolves}
use tarbox.Fs.Operations.Removal.{IsRemoved, remove_directory-IsRemoved}

abbrev first : Bytes → Bytes → Bool
first a b = true

remove_directory-IsRemoved_example :
    ((list_directory first mounted (bytes "/d") sample_db ≡ ok [])
      × (db' : Db) × (remove_directory first mounted (bytes "/d") sample_db ≡ (ok tt, db'))
      × IsRemoved mounted 2 sample_db db')
    ⊎ ((list_directory first mounted (bytes "/d") sample_db ≢ ok [])
        × (remove_directory first mounted (bytes "/d") sample_db
            ≡ (err (directory_not_empty (bytes "/d")), sample_db)))
remove_directory-IsRemoved_example =
    remove_directory-IsRemoved first mounted (bytes "/d") sample_db sample_dir parent_resolves refl
