-- ===== src/Storage/Texts.antt =====
-- src/storage/text.rs: deduplicated lines, the metadata of text files and the map from line numbers
-- to lines, with the keys and triggers of migrations/20260118000004_create_text_storage.sql.
-- `blake3` is the hash of the crate of that name, as a hexadecimal text.
use tarbox.Base.{
  ℕ, suc, ◌+◌, Bytes, bytes_eq, Bool, not, ◌&&◌, Option, none, some, List, [], ◌∷◌, ◌++◌, keep,
  find, any, map, is_some, ok, err, ◌==◌, leb, if◌then◌else◌,
}
use tarbox.Path.{FsResult, storage}
use tarbox.Storage.Models.{
  TenantId, InodeId, LayerId, BlockId, Layer, TextBlock, TextFileMetadata, TextLineMap, Db,
}
use tarbox.Storage.Inodes.{get_inode, foreign_key, unique_key, release, count_down}

-- `get_block`
unfoldable pub get_block : BlockId → Db → Option TextBlock
get_block b db = find (λ r. r.block_id == b) db.text_blocks

unfoldable pub get_block_by_hash : Bytes → Db → Option TextBlock
get_block_by_hash h db = find (λ r. bytes_eq r.content_hash h) db.text_blocks

abbrev pub new_text_block : Bytes → Bytes → Bytes → Db → TextBlock
new_text_block hash content encoding db = record {
  block_id = db.next_uuid;
  content_hash = hash;
  content = content;
  encoding = encoding;
  ref_count = 0;
}

-- `create_block`: a line that is stored already is returned as it is.
unfoldable pub create_text_block : (Bytes → Bytes) → Bytes → Bytes → Db → TextBlock × Db
create_text_block blake3 content encoding db = elim (get_block_by_hash (blake3 content) db) [
  | some existing ↦ (existing, db)
  | none ↦
      let new = new_text_block (blake3 content) content encoding db in
      (new, record db { text_blocks = db.text_blocks ++ new ∷ []; next_uuid = suc db.next_uuid })
]

abbrev pub count_up : BlockId → TextBlock → TextBlock
count_up b r = if r.block_id == b then record r { ref_count = r.ref_count + 1 } else r

abbrev pub add_reference : BlockId → List TextBlock → List TextBlock
add_reference b rs = map (count_up b) rs

-- `increment_ref_count`
unfoldable pub increment_ref_count : BlockId → Db → Db
increment_ref_count b db = record db { text_blocks = add_reference b db.text_blocks }

abbrev pub drop_reference : BlockId → List TextBlock → List TextBlock
drop_reference b rs = map (count_down b) rs

-- `decrement_ref_count`: GREATEST(ref_count - 1, 0).
unfoldable pub decrement_ref_count : BlockId → Db → Db
decrement_ref_count b db = record db { text_blocks = drop_reference b db.text_blocks }

abbrev pub is_metadata_of : TenantId → InodeId → LayerId → TextFileMetadata → Bool
is_metadata_of t i l m = m.tenant_id == t && (m.inode_id == i && m.layer_id == l)

abbrev pub is_mapping_of : TenantId → InodeId → LayerId → TextLineMap → Bool
is_mapping_of t i l m = m.tenant_id == t && (m.inode_id == i && m.layer_id == l)

-- `get_metadata`
unfoldable pub get_metadata : TenantId → InodeId → LayerId → Db → Option TextFileMetadata
get_metadata t i l db = find (is_metadata_of t i l) db.text_metadata

-- `create_metadata`
unfoldable pub create_metadata : TextFileMetadata → Db → FsResult (Unit {0}) × Db
create_metadata m db =
    if not (is_some (get_inode m.tenant_id m.inode_id db))
    then (err (storage foreign_key), db)
    else if not (any (λ (l : Layer). l.layer_id == m.layer_id) db.layers)
    then (err (storage foreign_key), db)
    else if is_some (get_metadata m.tenant_id m.inode_id m.layer_id db)
    then (err (storage unique_key), db)
    else (ok tt, record db { text_metadata = db.text_metadata ++ m ∷ [] })

abbrev pub new_mapping : TenantId → InodeId → LayerId → ℕ × BlockId → TextLineMap
new_mapping t i l (number, block) = record {
  tenant_id = t;
  inode_id = i;
  layer_id = l;
  line_number = number;
  block_id = block;
  block_line_offset = 0;
}

-- One INSERT of `create_line_mappings`, with the trigger that counts the reference.
abbrev pub insert_mapping : TextLineMap → Db → FsResult Db
insert_mapping m db =
    if not (is_some (get_metadata m.tenant_id m.inode_id m.layer_id db))
    then err (storage foreign_key)
    else if not (is_some (get_block m.block_id db))
    then err (storage foreign_key)
    else if any
        (λ r. is_mapping_of m.tenant_id m.inode_id m.layer_id r && r.line_number == m.line_number)
        db.line_map
    then err (storage unique_key)
    else ok (record db {
      line_map = db.line_map ++ m ∷ [];
      text_blocks = add_reference m.block_id db.text_blocks;
    })

abbrev pub insert_mappings : TenantId → InodeId → LayerId → List (ℕ × BlockId) → Db → FsResult Db
insert_mappings t i l [] db = ok db
insert_mappings t i l (m ∷ ms) db = elim (insert_mapping (new_mapping t i l m) db) [
  | err e ↦ err e
  | ok db' ↦ insert_mappings t i l ms db'
]

-- `create_line_mappings`: one transaction, which an error rolls back.
unfoldable pub create_line_mappings :
    TenantId → InodeId → LayerId → List (ℕ × BlockId) → Db → FsResult (Unit {0}) × Db
create_line_mappings t i l ms db = elim (insert_mappings t i l ms db) [
  | err e ↦ (err e, db)
  | ok db' ↦ (ok tt, db')
]

-- `ORDER BY line_number`
abbrev pub place_mapping : TextLineMap → List TextLineMap → List TextLineMap
place_mapping m [] = m ∷ []
place_mapping m (n ∷ ns) =
    let rest = place_mapping m ns in
    if leb m.line_number n.line_number then m ∷ n ∷ ns else n ∷ rest

unfoldable pub order_by_line : List TextLineMap → List TextLineMap
order_by_line [] = []
order_by_line (m ∷ ms) = place_mapping m (order_by_line ms)

-- `get_line_mappings`
unfoldable pub get_line_mappings : TenantId → InodeId → LayerId → Db → List TextLineMap
get_line_mappings t i l db = order_by_line (keep (is_mapping_of t i l) db.line_map)

-- The two DELETE statements of `write_text_file`, with the trigger on the mappings.
unfoldable pub delete_text : TenantId → InodeId → LayerId → Db → Db
delete_text t i l db = record db {
  line_map = keep (λ m. not (is_mapping_of t i l m)) db.line_map;
  text_blocks = release (keep (is_mapping_of t i l) db.line_map) db.text_blocks;
  text_metadata = keep (λ m. not (is_metadata_of t i l m)) db.text_metadata;
}
