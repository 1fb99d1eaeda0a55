-- ===== src/Storage/PublishedMounts/Access.antt =====
-- src/storage/published_mount.rs: who may use what is published, and the layer that it stands for.
pub mod Published
use tarbox.Base.{
  ℕ, Bytes, bytes, bytes_eq, Bool, true, false, not, ◌&&◌, ◌||◌, Option, none, some, List, [], ◌∷◌,
  ◌++◌, find, keep, map, ok, err, ok_or, ◌>>=◌, ◌==◌, if◌then◌else◌,
}
use tarbox.Path.{FsResult, storage}
use tarbox.Storage.Models.{TenantId, LayerId, MountRow, PublishedRow, Db}
use tarbox.Storage.Inodes.{mem}
use tarbox.Storage.PublishedMounts.{
  PublishTarget, target_layer, target_working, PublishScope, public_scope, allow_list,
  PublishedMount, UpdatePublishInput, ResolvedPublished, row_to_published, get_published_by_name,
  scope_text, scope_tenants,
}

abbrev given_description : Option Bytes → Option Bytes → Option Bytes
given_description none old = old
given_description (some new) old = some new

abbrev with_scope : Option PublishScope → PublishedRow → PublishedRow
with_scope none p = p
with_scope (some s) p = record p { scope = scope_text s; allowed_tenants = scope_tenants s }

abbrev pub patch_published : UpdatePublishInput → PublishedRow → PublishedRow
patch_published u p =
    with_scope u.scope (record p { description = given_description u.description p.description })

abbrev pub change_published : (PublishedRow → PublishedRow) → ℕ → PublishedRow → PublishedRow
change_published f i p = if p.publish_id == i then f p else p

-- The statement runs before its row is read.
unfoldable pub update_publish : ℕ → UpdatePublishInput → Db → FsResult PublishedMount × Db
update_publish i u db = elim (find (λ (p : PublishedRow). p.publish_id == i) db.published) [
  | none ↦ (err (storage (bytes "no rows returned")), db)
  | some p ↦ (
    row_to_published (patch_published u p),
    record db { published = map (change_published (patch_published u) i) db.published },
  )
]

-- What `check_access` answers for a publication.
abbrev pub allows : PublishScope → TenantId → Bool
allows public_scope t = true
allows (allow_list ts) t = mem t ts

abbrev pub may_access : PublishedMount → TenantId → Bool
may_access p t = if p.tenant_id == t then true else allows p.scope t

unfoldable pub check_access : Bytes → TenantId → Db → FsResult Bool
unfolding get_published_by_name
check_access name t db = get_published_by_name name db >>= λ found.
    ok_or found (storage (bytes "Published mount not found")) >>= λ p. ok (may_access p t)

abbrev is_allow_list : PublishedRow → Bool
is_allow_list p = bytes_eq p.scope (bytes "allow_list")

-- `array_append` if the tenant is not in the array; a comparison with NULL does not hold.
abbrev pub append_tenant : TenantId → PublishedRow → PublishedRow
append_tenant t p = elim p.allowed_tenants [
  | none ↦ p
  | some ts ↦
      if is_allow_list p && not (mem t ts)
      then record p { allowed_tenants = some (ts ++ t ∷ []) }
      else p
]

unfoldable pub add_allowed_tenant : ℕ → TenantId → Db → Db
add_allowed_tenant i t db = record db {
  published = map (change_published (append_tenant t) i) db.published;
}

-- `array_remove`
abbrev pub remove_tenant : TenantId → PublishedRow → PublishedRow
remove_tenant t p = elim p.allowed_tenants [
  | none ↦ p
  | some ts ↦
      if is_allow_list p
      then record p { allowed_tenants = some (keep (λ s. not (s == t)) ts) }
      else p
]

unfoldable pub remove_allowed_tenant : ℕ → TenantId → Db → Db
remove_allowed_tenant i t db = record db {
  published = map (change_published (remove_tenant t) i) db.published;
}

abbrev pub current_layer : Option MountRow → FsResult LayerId
current_layer none = err (storage (bytes "Mount entry not found"))
current_layer (some m) =
    ok_or m.current_layer_id (storage (bytes "Working layer not initialized for this mount"))

abbrev pub layer_of_target : PublishTarget → ℕ → Db → FsResult LayerId
layer_of_target (target_layer l) m db = ok l
layer_of_target target_working m db =
    current_layer (find (λ (r : MountRow). r.mount_entry_id == m) db.mounts)

abbrev is_working_target : PublishTarget → Bool
is_working_target (target_layer l) = false
is_working_target target_working = true

abbrev pub resolved : PublishedMount → LayerId → ResolvedPublished
resolved p l = record {
  mount_entry_id = p.mount_entry_id;
  owner_tenant_id = p.tenant_id;
  layer_id = l;
  is_working_layer = is_working_target p.target;
}

abbrev pub resolve_target : PublishedMount → Db → FsResult ResolvedPublished
resolve_target p db = layer_of_target p.target p.mount_entry_id db >>= λ l. ok (resolved p l)

unfoldable pub resolve_published : Bytes → TenantId → Db → FsResult ResolvedPublished
unfolding check_access get_published_by_name
resolve_published name t db = check_access name t db >>= λ may.
    if not may
    then err (storage (bytes "AccessDenied"))
    else (get_published_by_name name db >>= λ found.
        ok_or found (storage (bytes "Published mount not found")) >>= λ p. resolve_target p db)
