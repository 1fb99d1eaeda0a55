-- ===== src/Storage/Blocks.antt =====
-- src/storage/block.rs: the blocks of binary contents, with the keys of
-- migrations/20260115000001_initial_schema.sql. The column `content_hash` is written and never
-- read by the program, and is left out.
use tarbox.Base.{
  ℕ, suc, Bytes, Bool, not, ◌&&◌, List, [], ◌∷◌, ◌++◌, length, keep, any, is_some, ok, err, ◌==◌,
  leb, if◌then◌else◌,
}
use tarbox.Path.{FsResult, storage}
use tarbox.Storage.Models.{TenantId, InodeId, DataBlock, Db}
use tarbox.Storage.Inodes.{get_inode, foreign_key, unique_key}

abbrev pub is_block_of : TenantId → InodeId → DataBlock → Bool
is_block_of t i b = b.tenant_id == t && b.inode_id == i

abbrev pub new_block : TenantId → InodeId → ℕ → Bytes → Db → DataBlock
new_block t i index content db = record {
  block_id = db.next_uuid;
  tenant_id = t;
  inode_id = i;
  block_index = index;
  block_data = content;
  size = length content;
}

-- `create`
unfoldable pub create_block : TenantId → InodeId → ℕ → Bytes → Db → FsResult DataBlock × Db
create_block t i index content db =
    if not (is_some (get_inode t i db))
    then (err (storage foreign_key), db)
    else if any (λ b. is_block_of t i b && b.block_index == index) db.blocks
    then (err (storage unique_key), db)
    else (
      ok (new_block t i index content db),
      record db {
        blocks = db.blocks ++ new_block t i index content db ∷ [];
        next_uuid = suc db.next_uuid;
      },
    )

-- `ORDER BY block_index`
abbrev pub place_block : DataBlock → List DataBlock → List DataBlock
place_block b [] = b ∷ []
place_block b (c ∷ cs) =
    let rest = place_block b cs in if leb b.block_index c.block_index then b ∷ c ∷ cs else c ∷ rest

unfoldable pub order_by_index : List DataBlock → List DataBlock
order_by_index [] = []
order_by_index (b ∷ bs) = place_block b (order_by_index bs)

-- `list`
unfoldable pub list_blocks : TenantId → InodeId → Db → List DataBlock
list_blocks t i db = order_by_index (keep (is_block_of t i) db.blocks)

-- `delete`: the number of rows, and the table without them.
unfoldable pub delete_blocks : TenantId → InodeId → Db → ℕ × Db
delete_blocks t i db = (
  length (keep (is_block_of t i) db.blocks),
  record db { blocks = keep (λ b. not (is_block_of t i b)) db.blocks },
)

-- `for block in blocks { data.extend_from_slice(&block.data) }`
unfoldable pub concat_blocks : List DataBlock → Bytes
concat_blocks [] = []
concat_blocks (b ∷ bs) = b.block_data ++ concat_blocks bs
