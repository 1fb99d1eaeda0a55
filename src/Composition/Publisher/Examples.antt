-- ===== src/Composition/Publisher/Examples.antt =====
-- A working layer that a tenant would publish.
use tarbox.Base.{ℕ, ◌≡◌, Bytes, bytes, none, [], ◌∷◌, ok, err, true, refl}
use tarbox.Storage.Models.{TenantId, Db, mismatched_types}
use tarbox.Storage.Sample.{mounted_db}
use tarbox.Storage.PublishedMounts.{
  PublishMountInput, target_working, public_scope, new_published_row, new_published, publish_mount,
  unpublish_mount, get_published_by_name, get_publish_info,
}
use tarbox.Storage.PublishedMounts.Access.{check_access, resolve_published}
use tarbox.Storage.PublishedMounts.Access.Published.{publish_mount-unreadable}

abbrev digits : ℕ → Bytes
digits n = n ∷ []

abbrev working_input : PublishMountInput
working_input = record {
  mount_entry_id = 5;
  publish_name = bytes "w";
  description = none;
  target = target_working;
  scope = public_scope;
}

abbrev published_db : Db
published_db = record mounted_db {
  published = new_published_row 30 7 working_input ∷ [];
  next_uuid = 31;
}

published_first :
    publish_mount working_input mounted_db ≡ (ok (new_published 30 7 working_input), published_db)
unfolding publish_mount get_published_by_name get_publish_info
published_first = refl

publish_mount-unreadable_example :
    (get_published_by_name (bytes "w") published_db ≡ err mismatched_types)
    × (get_publish_info 5 published_db ≡ err mismatched_types)
    × ((t : TenantId) → check_access (bytes "w") t published_db ≡ err mismatched_types)
    × ((t : TenantId) → resolve_published (bytes "w") t published_db ≡ err mismatched_types)
    × (published_db.mounts ≡ mounted_db.mounts)
    × (unpublish_mount 5 published_db ≡ (true, record published_db { published = [] }))
publish_mount-unreadable_example =
    publish_mount-unreadable working_input mounted_db published_db
      (new_published 30 7 working_input) published_first
