-- ===== src/Storage/Models.antt =====
-- src/storage/models.rs, src/types.rs and the tables of migrations/*.sql.
-- A table is the list of its rows in the order of insertion, which is the order of `created_at`.
-- A UUID and an i64 key are numbers; `next_uuid` stands for `Uuid::new_v4`, which gives a number
-- that no row has, `next_inode` for the BIGSERIAL sequence, and `clock` for the time of the call.
use tarbox.Path.{FsError, FsResult, storage}
use tarbox.Base.{bytes, ok, err, ℕ, ℤ, Bytes, Bool, Option, List}

abbrev pub TenantId : Type 0
TenantId = ℕ

abbrev pub InodeId : Type 0
InodeId = ℕ

abbrev pub LayerId : Type 0
LayerId = ℕ

abbrev pub BlockId : Type 0
BlockId = ℕ

pub record Tenant : Type 0 where
  pub tenant_id : TenantId
  pub tenant_name : Bytes
  pub root_inode_id : InodeId

pub data InodeType : Type 0 where
  file dir symlink : InodeType

pub record Inode : Type 0 where
  pub inode_id : InodeId
  pub tenant_id : TenantId
  pub parent_id : Option InodeId
  pub name : Bytes
  pub inode_type : InodeType
  pub mode : ℕ
  pub uid : ℕ
  pub gid : ℕ
  pub size : ℕ
  pub atime : ℕ
  pub mtime : ℕ
  pub ctime : ℕ

pub record CreateInodeInput : Type 0 where
  pub tenant_id : TenantId
  pub parent_id : Option InodeId
  pub name : Bytes
  pub inode_type : InodeType
  pub mode : ℕ
  pub uid : ℕ
  pub gid : ℕ

pub record UpdateInodeInput : Type 0 where
  pub size : Option ℕ
  pub mode : Option ℕ
  pub uid : Option ℕ
  pub gid : Option ℕ
  pub atime : Option ℕ
  pub mtime : Option ℕ
  pub ctime : Option ℕ

pub record DataBlock : Type 0 where
  pub block_id : BlockId
  pub tenant_id : TenantId
  pub inode_id : InodeId
  pub block_index : ℕ
  pub block_data : Bytes
  pub size : ℕ

pub data LayerStatus : Type 0 where
  active creating deleting archived : LayerStatus

pub data ChangeType : Type 0 where
  add modify delete : ChangeType

pub record Layer : Type 0 where
  pub layer_id : LayerId
  pub tenant_id : TenantId
  pub parent_layer_id : Option LayerId
  pub layer_name : Bytes
  pub description : Option Bytes
  pub file_count : ℕ
  pub status : LayerStatus
  pub is_readonly : Bool
  pub created_by : Bytes
  pub mount_entry_id : Option ℕ
  pub is_working : Bool

pub record CreateLayerInput : Type 0 where
  pub tenant_id : TenantId
  pub parent_layer_id : Option LayerId
  pub layer_name : Bytes
  pub description : Option Bytes
  pub created_by : Bytes
  pub mount_entry_id : Option ℕ
  pub is_working : Bool

-- `TextChanges` of src/layer/cow.rs, which a layer entry keeps as JSON.
pub record TextChanges : Type 0 where
  pub lines_added : ℕ
  pub lines_deleted : ℕ
  pub lines_modified : ℕ
  pub total_lines : ℕ

pub record LayerEntry : Type 0 where
  pub entry_id : ℕ
  pub layer_id : LayerId
  pub tenant_id : TenantId
  pub inode_id : InodeId
  pub path : Bytes
  pub change_type : ChangeType
  pub size_delta : Option ℤ
  pub text_changes : Option TextChanges

pub record CreateLayerEntryInput : Type 0 where
  pub layer_id : LayerId
  pub tenant_id : TenantId
  pub inode_id : InodeId
  pub path : Bytes
  pub change_type : ChangeType
  pub size_delta : Option ℤ
  pub text_changes : Option TextChanges

pub record TextBlock : Type 0 where
  pub block_id : BlockId
  pub content_hash : Bytes
  pub content : Bytes
  pub encoding : Bytes
  pub ref_count : ℕ

pub record TextFileMetadata : Type 0 where
  pub tenant_id : TenantId
  pub inode_id : InodeId
  pub layer_id : LayerId
  pub total_lines : ℕ
  pub encoding : Bytes
  pub line_ending : Bytes
  pub has_trailing_newline : Bool

pub record TextLineMap : Type 0 where
  pub tenant_id : TenantId
  pub inode_id : InodeId
  pub layer_id : LayerId
  pub line_number : ℕ
  pub block_id : BlockId
  pub block_line_offset : ℕ

-- The six columns of `mount_entries` that hold the source of a mount.
pub record SourceColumns : Type 0 where
  pub source_type : Bytes
  pub host_path : Option Bytes
  pub source_mount_id : Option ℕ
  pub source_layer_id : Option LayerId
  pub source_subpath : Option Bytes
  pub source_publish_name : Option Bytes

-- The type of a column that holds a time, and the reading of a `DateTime<Utc>` from it, which the
-- crate sqlx refuses for every type but TIMESTAMPTZ.
pub data TimeType : Type 0 where
  timestamp timestamptz : TimeType

abbrev pub mismatched_types : FsError
mismatched_types = storage (bytes "mismatched types")

abbrev pub decode_utc : TimeType → FsResult (Unit {0})
decode_utc timestamptz = ok tt
decode_utc timestamp = err mismatched_types

-- `created_at` and `updated_at` of `mount_entries` and of `published_mounts`; the times themselves
-- are left out.
abbrev pub mount_times : TimeType
mount_times = timestamp

abbrev pub published_times : TimeType
published_times = timestamp

pub record MountRow : Type 0 where
  pub mount_entry_id : ℕ
  pub tenant_id : TenantId
  pub name : Bytes
  pub virtual_path : Bytes
  pub is_file : Bool
  pub source : SourceColumns
  pub mode : Bytes
  pub enabled : Bool
  pub current_layer_id : Option LayerId
  pub metadata : Option Bytes

pub record PublishedRow : Type 0 where
  pub publish_id : ℕ
  pub mount_entry_id : ℕ
  pub tenant_id : TenantId
  pub publish_name : Bytes
  pub description : Option Bytes
  pub target_type : Bytes
  pub layer_id : Option LayerId
  pub scope : Bytes
  pub allowed_tenants : Option (List TenantId)

pub record Db : Type 0 where
  pub tenants : List Tenant
  pub inodes : List Inode
  pub blocks : List DataBlock
  pub text_blocks : List TextBlock
  pub text_metadata : List TextFileMetadata
  pub line_map : List TextLineMap
  pub layers : List Layer
  pub entries : List LayerEntry
  pub current : List (TenantId × LayerId)
  pub mounts : List MountRow
  pub published : List PublishedRow
  pub next_inode : ℕ
  pub next_uuid : ℕ
  pub clock : ℕ

-- A statement, and `?`: what comes next runs if it succeeded, on the state that it left.
abbrev pub and_then {ℓ κ} :
    {A : Type ℓ} {B : Type κ} → FsResult A × Db → (A → Db → FsResult B × Db) → FsResult B × Db
and_then (ok a, db) k = k a db
and_then (err e, db) k = (err e, db)
