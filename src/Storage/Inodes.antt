-- ===== src/Storage/Inodes.antt =====
-- src/storage/inode.rs: the statements on the table of inodes, with the foreign keys and the
-- unique key of migrations/20260115000001_initial_schema.sql.
pub mod Update
pub mod Deletion
mod Examples
use tarbox.Base.{
  ℕ, zero, suc, ◌+◌, ◌-◌, Bytes, bytes, bytes_eq, Bool, true, false, not, ◌&&◌, ◌||◌, Option, none,
  some, List, [], ◌∷◌, ◌++◌, length, keep, find, any, is_empty, is_some, map, Result, ok, err, ◌==◌,
  if◌then◌else◌, ltb,
}
use tarbox.Path.{FsResult, storage}
use tarbox.Storage.Models.{
  TenantId, InodeId, Inode, CreateInodeInput, UpdateInodeInput, DataBlock, TextBlock,
  TextFileMetadata, TextLineMap, LayerEntry, Layer, Db,
}

-- `column = $n` on a column that may be NULL.
abbrev pub holds : Option ℕ → ℕ → Bool
holds none n = false
holds (some m) n = m == n

abbrev pub is_row : TenantId → InodeId → Inode → Bool
is_row t i r = r.tenant_id == t && r.inode_id == i

abbrev pub is_child : TenantId → InodeId → Inode → Bool
is_child t p r = r.tenant_id == t && holds r.parent_id p

-- `get`
unfoldable pub get_inode : TenantId → InodeId → Db → Option Inode
get_inode t i db = find (is_row t i) db.inodes

unfoldable pub get_by_parent_and_name : TenantId → InodeId → Bytes → Db → Option Inode
get_by_parent_and_name t p n db = find (λ r. is_child t p r && bytes_eq r.name n) db.inodes

abbrev pub fresh_inode : CreateInodeInput → Db → Inode
fresh_inode c db = record {
  inode_id = db.next_inode;
  tenant_id = c.tenant_id;
  parent_id = c.parent_id;
  name = c.name;
  inode_type = c.inode_type;
  mode = c.mode;
  uid = c.uid;
  gid = c.gid;
  size = 0;
  atime = db.clock;
  mtime = db.clock;
  ctime = db.clock;
}

abbrev pub foreign_key : Bytes
foreign_key = bytes "foreign key violation"

abbrev pub unique_key : Bytes
unique_key = bytes "unique key violation"

-- The constraints on a row with a parent: the parent is there, and the name is new below it. A
-- NULL parent satisfies both.
unfoldable pub check_parent : TenantId → Option InodeId → Bytes → Db → FsResult (Unit {0})
check_parent t none n db = ok tt
check_parent t (some p) n db =
    if not (is_some (get_inode t p db))
    then err (storage foreign_key)
    else if is_some (get_by_parent_and_name t p n db)
    then err (storage unique_key)
    else ok tt

-- `create`: INSERT, with the id from the sequence.
unfoldable pub create_inode : CreateInodeInput → Db → FsResult Inode × Db
create_inode c db = elim (check_parent c.tenant_id c.parent_id c.name db) [
  | err e ↦ (err e, db)
  | ok _ ↦ (
    ok (fresh_inode c db),
    record db { inodes = db.inodes ++ fresh_inode c db ∷ []; next_inode = suc db.next_inode },
  )
]

-- `ORDER BY name`: insertion sort by the order on names that the database collates by.
abbrev pub place : (Bytes → Bytes → Bool) → Inode → List Inode → List Inode
place collate r [] = r ∷ []
place collate r (x ∷ xs) =
    let rest = place collate r xs in if collate r.name x.name then r ∷ x ∷ xs else x ∷ rest

abbrev pub order_by_name : (Bytes → Bytes → Bool) → List Inode → List Inode
order_by_name collate [] = []
order_by_name collate (r ∷ rs) = place collate r (order_by_name collate rs)

unfoldable pub list_children : (Bytes → Bytes → Bool) → TenantId → InodeId → Db → List Inode
list_children collate t p db = order_by_name collate (keep (is_child t p) db.inodes)

-- The columns of an UPDATE, the values bound to them, and the row that it makes.
pub data Column : Type 0 where
  size_column mode_column uid_column gid_column atime_column mtime_column ctime_column : Column

abbrev pub assign : Column → ℕ → Inode → Inode
assign size_column v r = record r { size = v }
assign mode_column v r = record r { mode = v }
assign uid_column v r = record r { uid = v }
assign gid_column v r = record r { gid = v }
assign atime_column v r = record r { atime = v }
assign mtime_column v r = record r { mtime = v }
assign ctime_column v r = record r { ctime = v }

abbrev pub assign_all : List Column → List ℕ → Inode → Inode
assign_all [] vs r = r
assign_all (c ∷ cs) [] r = r
assign_all (c ∷ cs) (v ∷ vs) r = assign_all cs vs (assign c v r)

abbrev pub when {ℓ} : {A : Type ℓ} → Option ℕ → A → List A → List A
when none c cs = cs
when (some v) c cs = c ∷ cs

abbrev pub bind_value : Option ℕ → List ℕ → List ℕ
bind_value none vs = vs
bind_value (some v) vs = v ∷ vs

abbrev pub given_columns : UpdateInodeInput → List Column
given_columns u = when u.size size_column (
    when u.mode mode_column (
      when u.uid uid_column (
        when u.gid gid_column
          (when u.atime atime_column (when u.mtime mtime_column (when u.ctime ctime_column []))))))

-- With no field given the statement sets `ctime`.
unfoldable pub update_columns : UpdateInodeInput → List Column
update_columns u = if is_empty (given_columns u) then ctime_column ∷ [] else given_columns u

-- The values are bound after that; the branch that would bind the time for `ctime` asks whether
-- `updates` is empty, which it no longer is.
abbrev pub bind_ctime : Option ℕ → List Column → ℕ → List ℕ
bind_ctime (some v) cs now = v ∷ []
bind_ctime none cs now = if is_empty cs then now ∷ [] else []

unfoldable pub update_values : UpdateInodeInput → ℕ → List ℕ
update_values u now = bind_value u.size (
    bind_value u.mode (
      bind_value u.uid (
        bind_value u.gid
          (bind_value u.atime (bind_value u.mtime (bind_ctime u.ctime (update_columns u) now))))))

abbrev pub replace_row : TenantId → InodeId → Inode → List Inode → List Inode
replace_row t i new [] = []
replace_row t i new (r ∷ rs) =
    let rest = replace_row t i new rs in if is_row t i r then new ∷ rest else r ∷ rest

-- `update`: a statement with another number of values than places is refused, and one that
-- matches no row returns none, which `fetch_one` reports.
unfoldable pub update_inode : TenantId → InodeId → UpdateInodeInput → Db → FsResult Inode × Db
update_inode t i u db =
    if not (length (update_columns u) == length (update_values u db.clock))
    then (err (storage (bytes "wrong number of parameters")), db)
    else elim (get_inode t i db) [
      | none ↦ (err (storage (bytes "no rows returned")), db)
      | some r ↦
          let new = assign_all (update_columns u) (update_values u db.clock) r in
          (ok new, record db { inodes = replace_row t i new db.inodes })
    ]

abbrev pub mem : ℕ → List ℕ → Bool
mem i [] = false
mem i (j ∷ js) = j == i || mem i js

abbrev pub child_ids : TenantId → List InodeId → List Inode → List InodeId
child_ids t ps rows =
    map (λ (r : Inode). r.inode_id)
      (keep (λ r. r.tenant_id == t && any (holds r.parent_id) ps) rows)

-- The rows that ON DELETE CASCADE takes along, level by level. A chain of parents is at most as
-- long as the table.
unfoldable pub cascade : ℕ → TenantId → List InodeId → List Inode → List InodeId
cascade zero t ps rows = ps
cascade (suc fuel) t ps rows =
    let deeper = cascade fuel t (child_ids t ps rows) rows in
    if is_empty (child_ids t ps rows) then ps else ps ++ deeper

-- A block with one reference less: GREATEST(ref_count - 1, 0).
abbrev pub count_down : ℕ → TextBlock → TextBlock
count_down b r = if r.block_id == b then record r { ref_count = r.ref_count - 1 } else r

-- The trigger on deleted line mappings: each takes one reference off its block.
abbrev pub release : List TextLineMap → List TextBlock → List TextBlock
release [] bs = bs
release (m ∷ ms) bs = release ms (map (count_down m.block_id) bs)

-- The trigger on deleted layer entries: each takes one off its layer's count.
abbrev pub uncount : List LayerEntry → List Layer → List Layer
uncount [] ls = ls
uncount (e ∷ es) ls = uncount es (
    map
      (λ (l : Layer).
        if l.layer_id == e.layer_id then record l { file_count = l.file_count - 1 } else l)
      ls)

-- `delete`: the inodes and everything that refers to them.
unfoldable pub delete_inode : TenantId → InodeId → Db → Bool × Db
unfolding cascade
delete_inode t i db =
    let doomed = cascade (length db.inodes) t (i ∷ []) db.inodes in
    (
      is_some (get_inode t i db),
      if is_some (get_inode t i db)
          then record db {
            inodes = keep (λ r. not (r.tenant_id == t && mem r.inode_id doomed)) db.inodes;
            blocks = keep (λ b. not (b.tenant_id == t && mem b.inode_id doomed)) db.blocks;
            entries = keep (λ e. not (e.tenant_id == t && mem e.inode_id doomed)) db.entries;
            layers =
                uncount (keep (λ e. e.tenant_id == t && mem e.inode_id doomed) db.entries)
                  db.layers;
            text_metadata =
                keep (λ m. not (m.tenant_id == t && mem m.inode_id doomed)) db.text_metadata;
            line_map = keep (λ m. not (m.tenant_id == t && mem m.inode_id doomed)) db.line_map;
            text_blocks =
                release (keep (λ m. m.tenant_id == t && mem m.inode_id doomed) db.line_map)
                  db.text_blocks;
          }
          else db,
    )
