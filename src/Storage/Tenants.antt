-- ===== src/Storage/Tenants.antt =====
-- src/storage/tenant.rs: tenants and their root directories. Deleting a tenant is not modelled.
use tarbox.Base.{
  suc, Bytes, bytes, bytes_eq, Option, none, List, [], ◌∷◌, ◌++◌, find, is_some, ok, err, ◌==◌,
  if◌then◌else◌,
}
use tarbox.Path.{FsResult, storage}
use tarbox.Storage.Models.{TenantId, Tenant, Inode, dir, Db}
use tarbox.Storage.Inodes.{unique_key}
use tarbox.Storage.Layers.{reverse}

-- `get_by_id`
unfoldable pub get_tenant : TenantId → Db → Option Tenant
get_tenant t db = find (λ r. r.tenant_id == t) db.tenants

-- `get_by_name`
unfoldable pub get_by_name : Bytes → Db → Option Tenant
get_by_name n db = find (λ r. bytes_eq r.tenant_name n) db.tenants

abbrev pub root_inode : TenantId → Db → Inode
root_inode t db = record {
  inode_id = db.next_inode;
  tenant_id = t;
  parent_id = none;
  name = bytes "/";
  inode_type = dir;
  mode = 493;
  uid = 0;
  gid = 0;
  size = 4096;
  atime = db.clock;
  mtime = db.clock;
  ctime = db.clock;
}

abbrev pub new_tenant : Bytes → Db → Tenant
new_tenant n db = record {
  tenant_id = db.next_uuid;
  tenant_name = n;
  root_inode_id = db.next_inode;
}

-- `create`: one transaction for the tenant and its root.
unfoldable pub create_tenant : Bytes → Db → FsResult Tenant × Db
create_tenant n db = if is_some (get_by_name n db) then (err (storage unique_key), db) else (
  ok (new_tenant n db),
  record db {
    tenants = db.tenants ++ new_tenant n db ∷ [];
    inodes = db.inodes ++ root_inode db.next_uuid db ∷ [];
    next_inode = suc db.next_inode;
    next_uuid = suc db.next_uuid;
  },
)

-- `list`: the newest first.
unfoldable pub list_tenants : Db → List Tenant
list_tenants db = reverse db.tenants
