-- ===== src/Storage/Sample.antt =====
-- A database with one tenant, its root, a directory, a file and a base layer, for the examples.
use tarbox.Base.{ℕ, Bytes, bytes, true, false, Option, none, some, [], ◌∷◌}
use tarbox.Storage.Models.{Inode, InodeType, file, dir, Layer, active, MountRow, Db}

abbrev pub sample_inode : ℕ → Option ℕ → Bytes → InodeType → Inode
sample_inode i parent name kind = record {
  inode_id = i;
  tenant_id = 7;
  parent_id = parent;
  name = name;
  inode_type = kind;
  mode = 493;
  uid = 0;
  gid = 0;
  size = 0;
  atime = 1;
  mtime = 1;
  ctime = 1;
}

abbrev pub sample_layer : Layer
sample_layer = record {
  layer_id = 20;
  tenant_id = 7;
  parent_layer_id = none;
  layer_name = bytes "base";
  description = none;
  file_count = 0;
  status = active;
  is_readonly = false;
  created_by = bytes "system";
  mount_entry_id = none;
  is_working = false;
}

abbrev pub sample_file : Inode
sample_file = sample_inode 3 (some 2) (bytes "a") file

abbrev pub sample_dir : Inode
sample_dir = sample_inode 2 (some 1) (bytes "d") dir

abbrev pub sample_db : Db
sample_db = record {
  tenants = record { tenant_id = 7; tenant_name = bytes "acme"; root_inode_id = 1 } ∷ [];
  inodes = sample_inode 1 none (bytes "/") dir ∷ sample_dir ∷ sample_file ∷ [];
  blocks = [];
  text_blocks = [];
  text_metadata = [];
  line_map = [];
  layers = sample_layer ∷ [];
  entries = [];
  current = (7, 20) ∷ [];
  mounts = [];
  published = [];
  next_inode = 4;
  next_uuid = 30;
  clock = 9;
}

abbrev pub sample_mount : MountRow
sample_mount = record {
  mount_entry_id = 5;
  tenant_id = 7;
  name = bytes "w";
  virtual_path = bytes "/w";
  is_file = false;
  source = record {
    source_type = bytes "working_layer";
    host_path = none;
    source_mount_id = none;
    source_layer_id = none;
    source_subpath = none;
    source_publish_name = none;
  };
  mode = bytes "rw";
  enabled = true;
  current_layer_id = none;
  metadata = none;
}

abbrev pub mounted_db : Db
mounted_db = record sample_db { mounts = sample_mount ∷ [] }
