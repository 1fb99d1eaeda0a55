-- ===== src/Layer/Cow/Examples.antt =====
-- Contents written over the file of the sample database.
use tarbox.Base.{
  Bytes, bytes, Bool, true, false, none, some, [], ◌∷◌, length, is_some, ◌++◌, ◌==◌, ap, ◌≡◌, refl,
  ok, if◌then◌else◌,
}
use tarbox.Storage.Models.{Db}
use tarbox.Storage.Inodes.{get_inode}
use tarbox.Storage.Texts.{get_metadata}
use tarbox.Storage.Sample.{sample_db}
use tarbox.Layer.Lines.{lf}
use tarbox.Layer.Lines.Glue.{to_lf}
use tarbox.Layer.Lines.Laws.{blank}
use tarbox.Layer.Detection.{ascii_encoding, lf_ending}
use tarbox.Layer.Cow.{
  Outside, CowHandler, store_lines, write_text_file, text_result, read_text_file,
}
use tarbox.Layer.Cow.Hashed.{IsLawful, IsHashed}
use tarbox.Layer.Cow.Stored.{store_lines-AreStored, AreStored}
use tarbox.Layer.Cow.Text.{write_text_file-read, HasNoText, OnlyText}

-- Hashes that are told apart by their first number.
abbrev pub marks : Outside
marks = record {
  blake3 = λ d. 64 ∷ d;
  default_hash = λ d. 16 ∷ d;
  lossy = λ d. d;
  diff = λ a b. (length b, length a);
}

tail : Bytes → Bytes
tail [] = []
tail (x ∷ xs) = xs

pub marks-IsLawful : IsLawful marks
unfolding tail
marks-IsLawful = record {
  blake3_injective = λ a b p. ap tail p;
  hashes_differ = λ a b p. absurd (cc (ap is_sixteen p));
  lossy_utf8 = λ d h. refl;
}
  where
    is_sixteen : Bytes → Bool
    is_sixteen [] = false
    is_sixteen (x ∷ xs) = x == 16

abbrev handler : CowHandler
handler = record { tenant_id = 7; current_layer_id = 20 }

abbrev pub two_lines : Bytes
two_lines = bytes "ab" ++ lf ∷ bytes "c" ++ lf ∷ []

no_blocks-IsHashed : IsHashed marks 30 []
no_blocks-IsHashed = record { hashes = tt; handed_out = tt; by_id = tt }

sample-HasNoText : HasNoText handler 3 sample_db
unfolding get_metadata
sample-HasNoText = (refl, refl)

sample_inode_there : is_some (get_inode 7 3 sample_db) ≡ true
unfolding get_inode
sample_inode_there = refl

store_lines-AreStored_example :
    AreStored marks sample_db 0
      (bytes "x" ∷ bytes "y" ∷ bytes "x" ∷ [])
      (store_lines marks (bytes "ascii") 0 (bytes "x" ∷ bytes "y" ∷ bytes "x" ∷ []) sample_db).0
      (store_lines marks (bytes "ascii") 0 (bytes "x" ∷ bytes "y" ∷ bytes "x" ∷ []) sample_db).1
store_lines-AreStored_example =
    store_lines-AreStored marks marks-IsLawful (bytes "ascii") 0
      (bytes "x" ∷ bytes "y" ∷ bytes "x" ∷ []) sample_db no_blocks-IsHashed

write_text_file-read_example :
    (db' : Db) × (write_text_file marks handler 3 two_lines none ascii_encoding lf_ending sample_db
      ≡ (ok (text_result marks two_lines none), db'))
    × (read_text_file handler 3 20 db' ≡ some (if blank two_lines then [] else to_lf two_lines))
    × OnlyText sample_db db'
write_text_file-read_example =
    write_text_file-read marks marks-IsLawful handler 3 two_lines none ascii_encoding lf_ending
      sample_db sample_inode_there refl no_blocks-IsHashed (λ _. sample-HasNoText)
