-- ===== src/Storage/PublishedMounts.antt =====
-- src/storage/published_mount.rs: layers that other tenants may mount by name, and who may. The two
-- times of a row are left out but for their type: the order of insertion is the order of creation.
pub mod Access
use tarbox.Base.{
  ℕ, suc, Bytes, bytes, bytes_eq, Bool, true, false, not, ◌&&◌, ◌||◌, Option, none, some, List, [],
  ◌∷◌, ◌++◌, find, keep, any, map, ok, err, ok_or, ◌>>=◌, ◌==◌, if◌then◌else◌, is_some,
}
use tarbox.Path.{FsResult, storage}
use tarbox.Storage.Models.{
  decode_utc, published_times, TenantId, LayerId, MountRow, PublishedRow, Db,
}
use tarbox.Storage.Inodes.{foreign_key, mem}
use tarbox.Storage.Layers.{knows_tenant, reverse}

pub data PublishTarget : Type 0 where
  target_layer : LayerId → PublishTarget
  target_working : PublishTarget

pub data PublishScope : Type 0 where
  public_scope : PublishScope
  allow_list : (tenants : List TenantId) → PublishScope

pub record PublishedMount : Type 0 where
  pub publish_id : ℕ
  pub mount_entry_id : ℕ
  pub tenant_id : TenantId
  pub publish_name : Bytes
  pub description : Option Bytes
  pub target : PublishTarget
  pub scope : PublishScope

pub record PublishMountInput : Type 0 where
  pub mount_entry_id : ℕ
  pub publish_name : Bytes
  pub description : Option Bytes
  pub target : PublishTarget
  pub scope : PublishScope

pub record UpdatePublishInput : Type 0 where
  pub description : Option Bytes
  pub scope : Option PublishScope

pub record PublishedMountFilter : Type 0 where
  pub scope : Option Bytes
  pub owner_tenant_id : Option TenantId

pub record ResolvedPublished : Type 0 where
  pub mount_entry_id : ℕ
  pub owner_tenant_id : TenantId
  pub layer_id : LayerId
  pub is_working_layer : Bool

unfoldable pub parse_target : PublishedRow → FsResult PublishTarget
parse_target r =
    if bytes_eq r.target_type (bytes "layer")
    then (ok_or r.layer_id (storage (bytes "layer_id required for layer target")) >>= λ l.
        ok (target_layer l))
    else if bytes_eq r.target_type (bytes "working_layer")
    then ok target_working
    else err (storage (bytes "Unknown target type"))

-- `allowed_tenants.unwrap_or_default()`
abbrev pub allowed : Option (List TenantId) → List TenantId
allowed none = []
allowed (some ts) = ts

unfoldable pub parse_scope : PublishedRow → FsResult PublishScope
parse_scope r =
    if bytes_eq r.scope (bytes "public")
    then ok public_scope
    else if bytes_eq r.scope (bytes "allow_list")
    then ok (allow_list (allowed r.allowed_tenants))
    else err (storage (bytes "Unknown scope"))

-- The times are read before the target and the scope.
unfoldable pub row_to_published : PublishedRow → FsResult PublishedMount
unfolding parse_target parse_scope
row_to_published r = decode_utc published_times >>= λ _. parse_target r >>= λ target.
    parse_scope r >>= λ scope. ok (record {
      publish_id = r.publish_id;
      mount_entry_id = r.mount_entry_id;
      tenant_id = r.tenant_id;
      publish_name = r.publish_name;
      description = r.description;
      target = target;
      scope = scope;
    })

abbrev pub found_published : Option PublishedRow → FsResult (Option PublishedMount)
found_published none = ok none
found_published (some r) = row_to_published r >>= λ p. ok (some p)

unfoldable pub get_published_by_name : Bytes → Db → FsResult (Option PublishedMount)
get_published_by_name name db =
    found_published (find (λ (p : PublishedRow). bytes_eq p.publish_name name) db.published)

unfoldable pub get_publish_info : ℕ → Db → FsResult (Option PublishedMount)
get_publish_info m db =
    found_published (find (λ (p : PublishedRow). p.mount_entry_id == m) db.published)

-- The columns that a target and a scope are bound to.
abbrev pub target_type : PublishTarget → Bytes
target_type (target_layer l) = bytes "layer"
target_type target_working = bytes "working_layer"

abbrev pub target_id : PublishTarget → Option LayerId
target_id (target_layer l) = some l
target_id target_working = none

abbrev pub scope_text : PublishScope → Bytes
scope_text public_scope = bytes "public"
scope_text (allow_list ts) = bytes "allow_list"

abbrev pub scope_tenants : PublishScope → Option (List TenantId)
scope_tenants public_scope = none
scope_tenants (allow_list ts) = some ts

abbrev pub new_published_row : ℕ → TenantId → PublishMountInput → PublishedRow
new_published_row i t c = record {
  publish_id = i;
  mount_entry_id = c.mount_entry_id;
  tenant_id = t;
  publish_name = c.publish_name;
  description = c.description;
  target_type = target_type c.target;
  layer_id = target_id c.target;
  scope = scope_text c.scope;
  allowed_tenants = scope_tenants c.scope;
}

abbrev pub new_published : ℕ → TenantId → PublishMountInput → PublishedMount
new_published i t c = record {
  publish_id = i;
  mount_entry_id = c.mount_entry_id;
  tenant_id = t;
  publish_name = c.publish_name;
  description = c.description;
  target = c.target;
  scope = c.scope;
}

-- The INSERT: the name and the mount are free, and the mount is there, by what was read before.
abbrev pub insert_published : MountRow → PublishMountInput → Db → FsResult PublishedMount × Db
insert_published m c db =
    if not (knows_tenant m.tenant_id db) then (err (storage foreign_key), db) else (
      ok (new_published db.next_uuid m.tenant_id c),
      record db {
        published = db.published ++ new_published_row db.next_uuid m.tenant_id c ∷ [];
        next_uuid = suc db.next_uuid;
      },
    )

abbrev pub publish_for : Option MountRow → PublishMountInput → Db → FsResult PublishedMount × Db
publish_for none c db = (err (storage (bytes "Mount entry not found")), db)
publish_for (some m) c db = insert_published m c db

unfoldable pub publish_mount : PublishMountInput → Db → FsResult PublishedMount × Db
publish_mount c db = elim (get_published_by_name c.publish_name db) [
  | err e ↦ (err e, db)
  | ok (some p) ↦ (err (storage (bytes "PublishNameExists")), db)
  | ok none ↦ elim (get_publish_info c.mount_entry_id db) [
    | err e ↦ (err e, db)
    | ok (some p) ↦ (err (storage (bytes "Mount entry is already published")), db)
    | ok none ↦
        publish_for (find (λ (m : MountRow). m.mount_entry_id == c.mount_entry_id) db.mounts) c db
  ]
]

unfoldable pub unpublish_mount : ℕ → Db → Bool × Db
unpublish_mount m db = (
  any (λ (p : PublishedRow). p.mount_entry_id == m) db.published,
  record db { published = keep (λ (p : PublishedRow). not (p.mount_entry_id == m)) db.published },
)

abbrev collect_published : List PublishedRow → FsResult (List PublishedMount)
collect_published [] = ok []
collect_published (r ∷ rs) =
    let rest = collect_published rs in row_to_published r >>= λ p. rest >>= λ ps. ok (p ∷ ps)

-- Only the scope "public" filters.
abbrev in_scope : Option Bytes → PublishedRow → Bool
in_scope none p = true
in_scope (some s) p = not (bytes_eq s (bytes "public")) || bytes_eq p.scope (bytes "public")

abbrev owned_by : Option TenantId → PublishedRow → Bool
owned_by none p = true
owned_by (some t) p = p.tenant_id == t

unfoldable pub list_published_mounts : PublishedMountFilter → Db → FsResult (List PublishedMount)
list_published_mounts f db =
    collect_published
      (reverse (keep (λ p. in_scope f.scope p && owned_by f.owner_tenant_id p) db.published))

unfoldable pub list_tenant_published_mounts : TenantId → Db → FsResult (List PublishedMount)
list_tenant_published_mounts t db =
    collect_published (reverse (keep (λ (p : PublishedRow). p.tenant_id == t) db.published))
