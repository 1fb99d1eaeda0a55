-- ===== src/Composition/Publisher.antt =====
-- src/composition/publisher.rs: what a tenant may publish. The two repositories of the publisher are
-- the tables of the database.
mod Unreadable
mod Examples
use tarbox.Base.{
  ℕ, Bytes, bytes, Bool, true, false, not, Option, none, some, ok, err, ◌==◌, if◌then◌else◌,
}
use tarbox.Path.{FsResult, storage}
use tarbox.Storage.Models.{TenantId, Db}
use tarbox.Composition.Resolver.{MountSource, host, layer, published, working_layer, MountEntry}
use tarbox.Storage.MountEntries.{get_mount_entry_by_name}
use tarbox.Storage.PublishedMounts.{
  PublishedMount, PublishMountInput, publish_mount, unpublish_mount,
}

-- `matches!(source, MountSource::WorkingLayer)`
abbrev pub is_working_source : MountSource → Bool
is_working_source (host path) = false
is_working_source (layer m l subpath) = false
is_working_source (published name subpath) = false
is_working_source working_layer = true

abbrev pub mount_not_found : Bytes
mount_not_found = bytes "Mount not found"

-- The checks on the mount that was found.
abbrev pub publish_checked :
    TenantId → MountEntry → PublishMountInput → Db → FsResult PublishedMount × Db
publish_checked t m c db =
    if not (m.tenant_id == t)
    then (err (storage (bytes "Mount does not belong to this tenant")), db)
    else if not (m.mount_entry_id == c.mount_entry_id)
    then (err (storage (bytes "Mount entry ID mismatch")), db)
    else if not (is_working_source m.source)
    then (err (storage (bytes "Only WorkingLayer mounts can be published")), db)
    else publish_mount c db

unfoldable pub publish : TenantId → Bytes → PublishMountInput → Db → FsResult PublishedMount × Db
publish t mount_name c db = elim (get_mount_entry_by_name t mount_name db) [
  | err e ↦ (err e, db)
  | ok none ↦ (err (storage mount_not_found), db)
  | ok (some m) ↦ publish_checked t m c db
]

abbrev pub unpublish_checked : TenantId → MountEntry → Db → FsResult (Unit {0}) × Db
unpublish_checked t m db =
    if not (m.tenant_id == t)
    then (err (storage (bytes "Mount does not belong to this tenant")), db)
    else if (unpublish_mount m.mount_entry_id db).0
    then (ok tt, (unpublish_mount m.mount_entry_id db).1)
    else (err (storage (bytes "Mount is not published")), (unpublish_mount m.mount_entry_id db).1)

unfoldable pub unpublish : TenantId → Bytes → Db → FsResult (Unit {0}) × Db
unpublish t mount_name db = elim (get_mount_entry_by_name t mount_name db) [
  | err e ↦ (err e, db)
  | ok none ↦ (err (storage mount_not_found), db)
  | ok (some m) ↦ unpublish_checked t m db
]
