-- ===== src/Layer/Cow/Text.antt =====
-- Text contents: what is read back after a write.
use tarbox.Base.{
  ℕ, ◌≡◌, refl, ap, ◌∙◌, Bytes, bytes_eq, Bool, true, not, Option, none, some, List, [], ◌∷◌, ◌++◌,
  find, any, keep, ◌==◌, if◌then◌else◌, arith, eq_refl, is_some, ok, keep-not, find-append_none,
}
use tarbox.Storage.Models.{InodeId, LayerId, Layer, TextFileMetadata, Db}
use tarbox.Storage.Inodes.{get_inode}
use tarbox.Storage.Texts.{
  get_metadata, is_metadata_of, is_mapping_of, create_metadata, get_line_mappings, delete_text,
}
use tarbox.Layer.Lines.{lf, lines, reassemble, separator}
use tarbox.Layer.Lines.Glue.{to_lf}
use tarbox.Layer.Lines.Laws.{blank, reassemble-lines}
use tarbox.Layer.Detection.{
  TextEncoding, LineEnding, lf_ending, crlf_ending, cr_ending, mixed_ending, no_ending,
  encoding_name, ending_name,
}
use tarbox.Layer.Cow.{
  Outside, CowHandler, clear_old, metadata_of, store_lines, map_lines, text_result, write_text_file,
  read_text_file, mapped_lines,
}
use tarbox.Layer.Cow.Hashed.{IsLawful, IsHashed, IsHashed-release, OnlyTextBlocks}
use tarbox.Layer.Cow.Stored.{store_lines-AreStored}
use tarbox.Layer.Cow.Written.{HoldsMap, create_line_mappings-read}

-- No name that `Display` gives is one of the lower-case names that reading looks for.
ending_name-separator : (e : LineEnding) → separator (ending_name e) ≡ lf ∷ []
unfolding separator ending_name bytes_eq
ending_name-separator lf_ending = refl
ending_name-separator crlf_ending = refl
ending_name-separator cr_ending = refl
ending_name-separator mixed_ending = refl
ending_name-separator no_ending = refl

-- A database without its text tables and without the count of ids.
abbrev pub beside_texts : Db → Db
beside_texts db = record db { text_blocks = []; text_metadata = []; line_map = []; next_uuid = 0 }

-- `db'` differs from `db` in its text tables and in the ids handed out.
abbrev pub OnlyText : Db → Db → Type 0
OnlyText db db' = beside_texts db' ≡ beside_texts db

find-keep-none {ℓ} :
    {A : Type ℓ} (p : A → Bool) (xs : List A) → find p (keep (λ x. not (p x)) xs) ≡ none
find-keep-none p [] = refl
find-keep-none p (x ∷ xs) = ground (arith, find-keep-none p xs)

-- Nothing of a text is stored for this inode in the layer of the handler.
abbrev pub HasNoText : CowHandler → InodeId → Db → Type 0
HasNoText h i db =
    (get_metadata h.tenant_id i h.current_layer_id db ≡ none)
    × HoldsMap h.tenant_id i h.current_layer_id db []

-- The layer of the handler is there.
abbrev pub has_layer : LayerId → Db → Bool
has_layer l db = any (λ (r : Layer). r.layer_id == l) db.layers

clear_old-HasNoText :
    (h : CowHandler) (i : InodeId) (old : Option Bytes) (db : Db)
    → (old ≡ none → HasNoText h i db)
    → HasNoText h i (clear_old h i old db)
unfolding delete_text get_metadata
clear_old-HasNoText h i none db f = f refl
clear_old-HasNoText h i (some d) db f = (
  find-keep-none (is_metadata_of h.tenant_id i h.current_layer_id) db.text_metadata,
  keep-not (is_mapping_of h.tenant_id i h.current_layer_id) db.line_map,
)

clear_old-IsHashed :
    (o : Outside) (h : CowHandler) (i : InodeId) (old : Option Bytes) (db : Db)
    → IsHashed o db.next_uuid db.text_blocks
    → IsHashed o (clear_old h i old db).next_uuid (clear_old h i old db).text_blocks
unfolding delete_text
clear_old-IsHashed o h i none db v = v
clear_old-IsHashed o h i (some d) db v =
    IsHashed-release o db.next_uuid
      (keep (is_mapping_of h.tenant_id i h.current_layer_id) db.line_map) db.text_blocks v

clear_old-keeps :
    (h : CowHandler) (i : InodeId) (old : Option Bytes) (db : Db)
    → (get_inode h.tenant_id i (clear_old h i old db) ≡ get_inode h.tenant_id i db)
      × (has_layer h.current_layer_id (clear_old h i old db) ≡ has_layer h.current_layer_id db)
unfolding delete_text get_inode
clear_old-keeps h i none db = (refl, refl)
clear_old-keeps h i (some d) db = (refl, refl)

clear_old-OnlyText :
    (h : CowHandler) (i : InodeId) (old : Option Bytes) (db : Db)
    → OnlyText db (clear_old h i old db)
unfolding delete_text
clear_old-OnlyText h i none db = refl
clear_old-OnlyText h i (some d) db = refl

abbrev with_metadata : TextFileMetadata → Db → Db
with_metadata m db = record db { text_metadata = db.text_metadata ++ m ∷ [] }

own_metadata :
    (m : TextFileMetadata)
    → find (is_metadata_of m.tenant_id m.inode_id m.layer_id) (m ∷ []) ≡ some m
own_metadata m = rw (eq_refl m.tenant_id, eq_refl m.inode_id, eq_refl m.layer_id) refl

found_metadata :
    (m : TextFileMetadata) (db : Db)
    → get_metadata m.tenant_id m.inode_id m.layer_id db ≡ none
    → get_metadata m.tenant_id m.inode_id m.layer_id (with_metadata m db) ≡ some m
unfolding get_metadata
found_metadata m db c =
    find-append_none (is_metadata_of m.tenant_id m.inode_id m.layer_id) db.text_metadata (m ∷ []) c
    ∙ own_metadata m

create_metadata-ok :
    (m : TextFileMetadata) (db : Db)
    → is_some (get_inode m.tenant_id m.inode_id db) ≡ true
    → has_layer m.layer_id db ≡ true
    → get_metadata m.tenant_id m.inode_id m.layer_id db ≡ none
    → create_metadata m db ≡ (ok tt, with_metadata m db)
unfolding create_metadata
create_metadata-ok m db a b c = rw (a, b, c) refl

same_metadata :
    (t i l : ℕ) (a b : Db) → OnlyTextBlocks a b → get_metadata t i l b ≡ get_metadata t i l a
unfolding get_metadata
same_metadata t i l a b p = ap (get_metadata t i l) p

read_text_file-found :
    (h : CowHandler) (i : InodeId) (l : LayerId) (db : Db) (m : TextFileMetadata) (ls : List Bytes)
    → get_metadata h.tenant_id i l db ≡ some m
    → mapped_lines (get_line_mappings h.tenant_id i l db) db ≡ ls
    → read_text_file h i l db ≡ some (reassemble m.line_ending m.has_trailing_newline ls)
unfolding read_text_file
read_text_file-found h i l db m ls e q = rw (read_text_file, e, q) refl

module _ (o : Outside) (law : IsLawful o) (h : CowHandler) (i : InodeId) where
  -- All the lines are stored and mapped, and they are read back.
  map_lines-read :
      (encoding : Bytes) (ls : List Bytes) (db : Db)
      → is_some (get_metadata h.tenant_id i h.current_layer_id db) ≡ true
      → HoldsMap h.tenant_id i h.current_layer_id db []
      → IsHashed o db.next_uuid db.text_blocks
      → (db' : Db) × (map_lines o h i encoding ls db ≡ (ok tt, db'))
        × (mapped_lines (get_line_mappings h.tenant_id i h.current_layer_id db') db' ≡ ls)
        × (get_metadata h.tenant_id i h.current_layer_id db'
            ≡ get_metadata h.tenant_id i h.current_layer_id db)
        × OnlyText db db'
  unfolding map_lines
  map_lines-read encoding ls db e n v =
      let s = store_lines-AreStored o law encoding 0 ls db v in
      let ms = (store_lines o encoding 0 ls db).0 in
      let db1 = (store_lines o encoding 0 ls db).1 in
      let same = same_metadata h.tenant_id i h.current_layer_id db db1 s.only in
      let n1 : HoldsMap h.tenant_id i h.current_layer_id db1 [] =
        ap (λ (x : Db). keep (is_mapping_of h.tenant_id i h.current_layer_id) x.line_map) s.only
        ∙ n in
      let (db2, r, q, only) =
        create_line_mappings-read h.tenant_id i h.current_layer_id ms ls db1 (rw same e) n1
          s.maps in
      (
        db2,
        r,
        q,
        unfold get_metadata in ap (get_metadata h.tenant_id i h.current_layer_id) only ∙ same,
        ap beside_texts only ∙ ap beside_texts s.only,
      )

  -- A text file that is written over an inode that is there, in a layer that is there, is stored if
  -- the blocks stored are found by hash and id and, without old data, the inode has no text in the
  -- layer. It reads back in that layer as the text with `\r\n` replaced by `\n`, or as nothing if
  -- the text is a single newline; no table but those of the texts is changed.
  pub write_text_file-read :
      (d : Bytes) (old : Option Bytes) (e : TextEncoding) (l : LineEnding) (db : Db)
      → is_some (get_inode h.tenant_id i db) ≡ true
      → has_layer h.current_layer_id db ≡ true
      → IsHashed o db.next_uuid db.text_blocks
      → (old ≡ none → HasNoText h i db)
      → (db' : Db) × (write_text_file o h i d old e l db ≡ (ok (text_result o d old), db'))
        × (read_text_file h i h.current_layer_id db'
            ≡ some (if blank (o.lossy d) then [] else to_lf (o.lossy d)))
        × OnlyText db db'
  unfolding write_text_file
  write_text_file-read d old e l db a b v f =
      let db0 = clear_old h i old db in
      let m = metadata_of h i (o.lossy d) e l in
      let (none_yet, unmapped) = clear_old-HasNoText h i old db f in
      let (same_inode, same_layer) = clear_old-keeps h i old db in
      let created = create_metadata-ok m db0 (rw same_inode a) (same_layer ∙ b) none_yet in
      let found = found_metadata m db0 none_yet in
      let (db', r, q, same, only) =
        map_lines-read (encoding_name e) (lines (o.lossy d)) (with_metadata m db0) (rw found refl)
          unmapped (clear_old-IsHashed o h i old db v) in
      (
        db',
        rw (created, r) refl,
        read_text_file-found h i h.current_layer_id db' m (lines (o.lossy d)) (same ∙ found) q
            ∙ ap some (reassemble-lines (ending_name l) (ending_name-separator l) (o.lossy d)),
        only ∙ clear_old-OnlyText h i old db,
      )
