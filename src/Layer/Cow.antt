-- ===== src/Layer/Cow.antt =====
-- src/layer/cow.rs: contents are written as blocks of 4096 bytes if binary, and line by line if
-- text, in the layer of the handler; text is read back from the lines of one layer.
pub mod Binary
pub mod Hashed
pub mod Stored
mod Written
pub mod Text
pub mod Examples
use tarbox.Base.{
  ℕ, zero, suc, ◌+◌, ◌-◌, ℤ, sub_ℕ, min, Bytes, bytes, Bool, true, false, not, Option, none, some,
  List, [], ◌∷◌, ◌++◌, length, map, take, drop, is_some, Result, ok, err, ◌==◌, if◌then◌else◌,
}
use tarbox.Path.{FsError, FsResult, storage}
use tarbox.Storage.Models.{
  TenantId, InodeId, LayerId, BlockId, ChangeType, add, modify, TextChanges, TextBlock,
  TextFileMetadata, TextLineMap, Db, and_then,
}
use tarbox.Storage.Blocks.{create_block, delete_blocks}
use tarbox.Storage.Texts.{
  get_block, get_block_by_hash, create_text_block, increment_ref_count, decrement_ref_count,
  get_metadata, create_metadata, create_line_mappings, get_line_mappings, delete_text,
}
use tarbox.Layer.Lines.{lines, ends_with_newline, reassemble}
use tarbox.Layer.Detection.{
  FileTypeInfo, text, binary, TextEncoding, LineEnding, encoding_name, ending_name, detect,
  default_config,
}

-- What the handler calls and this repository does not define: the crate `blake3`, the hasher of
-- the standard library, `String::from_utf8_lossy`, and the line diff of the crate `similar`,
-- which counts the lines inserted and deleted.
pub record Outside : Type 0 where
  pub blake3 : Bytes → Bytes
  pub default_hash : Bytes → Bytes
  pub lossy : Bytes → Bytes
  pub diff : List Bytes → List Bytes → ℕ × ℕ

-- `CowHandler`, without its pool; the detector has the default configuration.
pub record CowHandler : Type 0 where
  pub tenant_id : TenantId
  pub current_layer_id : LayerId

pub record CowResult : Type 0 where
  pub change_type : ChangeType
  pub size_delta : ℤ
  pub text_changes : Option TextChanges
  pub is_text : Bool

abbrev pub block_size : ℕ
block_size = 4096

-- `data.chunks(BLOCK_SIZE)`. Each round takes a byte at least, so the length is enough fuel.
unfoldable pub chunks_from : ℕ → Bytes → List Bytes
chunks_from zero d = []
chunks_from (suc fuel) [] = []
chunks_from (suc fuel) (x ∷ xs) =
    take block_size (x ∷ xs) ∷ chunks_from fuel (drop block_size (x ∷ xs))

unfoldable pub chunks : Bytes → List Bytes
unfolding chunks_from
chunks d = chunks_from (length d) d

-- The loop over the chunks with their indices.
unfoldable pub create_blocks : TenantId → InodeId → ℕ → List Bytes → Db → FsResult (Unit {0}) × Db
create_blocks t i index [] db = (ok tt, db)
create_blocks t i index (c ∷ cs) db =
    and_then (create_block t i index c db) (λ _. create_blocks t i (suc index) cs)

abbrev pub change_of : Bool → ChangeType
change_of is_new = if is_new then add else modify

abbrev pub binary_result : Bytes → Bool → ℕ → CowResult
binary_result d is_new old_size = record {
  change_type = change_of is_new;
  size_delta = sub_ℕ (length d) old_size;
  text_changes = none;
  is_text = false;
}

unfoldable pub write_binary_file :
    CowHandler → InodeId → Bytes → Bool → ℕ → Db → FsResult CowResult × Db
unfolding create_blocks chunks
write_binary_file h i d is_new old_size db =
    and_then (create_blocks h.tenant_id i 0 (chunks d) (delete_blocks h.tenant_id i db).1)
      λ _ db'. (ok (binary_result d is_new old_size), db')

-- Lines that are deleted and inserted count as modified, as far as they pair up.
unfoldable pub calculate_line_diff : Outside → List Bytes → List Bytes → TextChanges
calculate_line_diff o old new =
    let (inserted, deleted) = o.diff old new in
    let modifications = min inserted deleted in
    record {
      lines_added = inserted - modifications;
      lines_deleted = deleted - modifications;
      lines_modified = modifications;
      total_lines = length new;
    }

-- The block of one line: the one found by hash, with a reference more, or a created one.
unfoldable pub store_line : Outside → Bytes → Bytes → Db → BlockId × Db
store_line o encoding line db = elim (get_block_by_hash (o.default_hash line) db) [
  | some existing ↦ (existing.block_id, increment_ref_count existing.block_id db)
  | none ↦ let (block, db') = create_text_block o.blake3 line encoding db in (block.block_id, db')
]

unfoldable pub store_lines : Outside → Bytes → ℕ → List Bytes → Db → List (ℕ × BlockId) × Db
unfolding store_line
store_lines o encoding number [] db = ([], db)
store_lines o encoding number (l ∷ ls) db =
    let (block, db') = store_line o encoding l db in
    let (rest, db'') = store_lines o encoding (suc number) ls db' in ((number, block) ∷ rest, db'')

abbrev pub old_length : Option Bytes → ℕ
old_length none = 0
old_length (some d) = length d

abbrev pub text_changes_of : Outside → Option Bytes → List Bytes → TextChanges
text_changes_of o none new = record {
  lines_added = length new;
  lines_deleted = 0;
  lines_modified = 0;
  total_lines = length new;
}
text_changes_of o (some d) new = calculate_line_diff o (lines (o.lossy d)) new

-- The old mappings and metadata go if there is old data.
abbrev pub clear_old : CowHandler → InodeId → Option Bytes → Db → Db
clear_old h i none db = db
clear_old h i (some d) db = delete_text h.tenant_id i h.current_layer_id db

abbrev pub metadata_of : CowHandler → InodeId → Bytes → TextEncoding → LineEnding → TextFileMetadata
metadata_of h i new_text e l = record {
  tenant_id = h.tenant_id;
  inode_id = i;
  layer_id = h.current_layer_id;
  total_lines = length (lines new_text);
  encoding = encoding_name e;
  line_ending = ending_name l;
  has_trailing_newline = ends_with_newline new_text;
}

-- The lines are stored and then mapped.
unfoldable pub map_lines :
    Outside → CowHandler → InodeId → Bytes → List Bytes → Db → FsResult (Unit {0}) × Db
unfolding store_lines
map_lines o h i encoding ls db =
    let (mappings, db') = store_lines o encoding 0 ls db in
    create_line_mappings h.tenant_id i h.current_layer_id mappings db'

abbrev pub text_result : Outside → Bytes → Option Bytes → CowResult
text_result o d old = record {
  change_type = change_of (not (is_some old));
  size_delta = sub_ℕ (length d) (old_length old);
  text_changes = some (text_changes_of o old (lines (o.lossy d)));
  is_text = true;
}

unfoldable pub write_text_file :
    Outside
    → CowHandler
    → InodeId
    → Bytes
    → Option Bytes
    → TextEncoding
    → LineEnding
    → Db
    → FsResult CowResult × Db
unfolding map_lines
write_text_file o h i d old e l db =
    let new_text = o.lossy d in
    and_then (create_metadata (metadata_of h i new_text e l) (clear_old h i old db)) λ _ db'.
      and_then (map_lines o h i (encoding_name e) (lines new_text) db')
        λ _ db''. (ok (text_result o d old), db'')

-- `CowHandler::write_file`
abbrev pub write_as :
    Outside
    → CowHandler
    → InodeId
    → Bytes
    → Option Bytes
    → FileTypeInfo
    → Db
    → FsResult CowResult × Db
write_as o h i d old (text e l n) db = write_text_file o h i d old e l db
write_as o h i d old binary db = write_binary_file h i d (not (is_some old)) (old_length old) db

unfoldable pub cow_write_file :
    Outside → CowHandler → InodeId → Bytes → Option Bytes → Db → FsResult CowResult × Db
cow_write_file o h i d old db = write_as o h i d old (detect default_config d) db

-- The lines of the mappings whose block is there.
unfoldable pub mapped_lines : List TextLineMap → Db → List Bytes
mapped_lines [] db = []
mapped_lines (m ∷ ms) db =
    let rest = mapped_lines ms db in
    elim (get_block m.block_id db) [ none ↦ rest | some b ↦ b.content ∷ rest ]

unfoldable pub read_text_file : CowHandler → InodeId → LayerId → Db → Option Bytes
unfolding mapped_lines
read_text_file h i l db = elim (get_metadata h.tenant_id i l db) [
  | none ↦ none
  | some m ↦ some (
      reassemble m.line_ending m.has_trailing_newline
        (mapped_lines (get_line_mappings h.tenant_id i l db) db))
]

abbrev pub release_all : List TextLineMap → Db → Db
release_all [] db = db
release_all (m ∷ ms) db = release_all ms (decrement_ref_count m.block_id db)

unfoldable pub delete_text_file : CowHandler → InodeId → LayerId → Db → Db
delete_text_file h i l db = release_all (get_line_mappings h.tenant_id i l db) db
