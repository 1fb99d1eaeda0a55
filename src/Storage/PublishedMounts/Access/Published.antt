-- ===== src/Storage/PublishedMounts/Access/Published.antt =====
-- src/storage/published_mount.rs: what a publication changes, that it cannot be read, and that it
-- can be taken back.
use tarbox.Base.{
  ℕ, suc, ◌≡◌, refl, subst, eq_refl, Bool, Bytes, bytes_eq, bytes_eq_refl, true, not, none, some,
  List, [], ◌∷◌, ◌++◌, find, find-append_none, keep, any, ok, err, arith, Bool-cases, Option,
  Option-cases, Result-cases, inl, inr, ◌==◌,
}
use tarbox.Path.{FsResult}
use tarbox.Storage.Models.{TenantId, mismatched_types, MountRow, PublishedRow, Db}
use tarbox.Storage.Layers.{knows_tenant}
use tarbox.Storage.PublishedMounts.Access.{check_access, resolve_published}
use tarbox.Storage.PublishedMounts.{
  PublishedMount, PublishMountInput, row_to_published, found_published, get_published_by_name,
  get_publish_info, new_published_row, insert_published, publish_mount, unpublish_mount,
}

pub found-none : (o : Option PublishedRow) → found_published o ≡ ok none → o ≡ none
found-none none h = refl
found-none (some r) h = elim (Result-cases (row_to_published r)) [
  | inl (p, e) ↦ cc (rw e at h)
  | inr (x, e) ↦ cc (rw e at h)
]

-- What a publication says of the tables before and after it.
abbrev pub IsPublished : PublishMountInput → Db → FsResult PublishedMount × Db → Type 0
IsPublished c db (err e, db') = db' ≡ db
IsPublished c db (ok p, db') =
    (get_published_by_name c.publish_name db' ≡ err mismatched_types)
    × (get_publish_info c.mount_entry_id db' ≡ err mismatched_types)
    × ((t : TenantId) → check_access c.publish_name t db' ≡ err mismatched_types)
    × ((t : TenantId) → resolve_published c.publish_name t db' ≡ err mismatched_types)
    × (db'.mounts ≡ db.mounts)
    × (unpublish_mount c.mount_entry_id db' ≡ (true, record db' { published = db.published }))

-- A row that is found cannot be read.
found_after :
    (q : PublishedRow → Bool) (rs : List PublishedRow) (r : PublishedRow)
    → find q rs ≡ none
    → q r ≡ true
    → found_published (find q (rs ++ r ∷ [])) ≡ err mismatched_types
unfolding row_to_published
found_after q rs r h k = rw (find-append_none q rs (r ∷ []) h, k) refl

refused_access :
    (name : Bytes) (t : TenantId) (db : Db)
    → get_published_by_name name db ≡ err mismatched_types
    → (check_access name t db ≡ err mismatched_types)
      × (resolve_published name t db ≡ err mismatched_types)
unfolding check_access resolve_published
refused_access name t db h =
    (rw (check_access, h) refl, rw (resolve_published, check_access, h) refl)

kept_rest :
    (m : ℕ) (rs : List PublishedRow) (r : PublishedRow)
    → r.mount_entry_id ≡ m
    → find (λ (p : PublishedRow). p.mount_entry_id == m) rs ≡ none
    → keep (λ (p : PublishedRow). not (p.mount_entry_id == m)) (rs ++ r ∷ []) ≡ rs
kept_rest m [] r e h = ground arith
kept_rest m (x ∷ rs) r e h = ground (arith, kept_rest m rs r e)

there :
    (m : ℕ) (rs : List PublishedRow) (r : PublishedRow)
    → r.mount_entry_id ≡ m
    → any (λ (p : PublishedRow). p.mount_entry_id == m) (rs ++ r ∷ []) ≡ true
there m [] r e = ground arith
there m (x ∷ rs) r e = ground (arith, there m rs r e)

insert-IsPublished :
    (c : PublishMountInput) (db : Db) (m : MountRow)
    → find (λ (p : PublishedRow). bytes_eq p.publish_name c.publish_name) db.published ≡ none
    → find (λ (p : PublishedRow). p.mount_entry_id == c.mount_entry_id) db.published ≡ none
    → IsPublished c db (insert_published m c db)
unfolding get_published_by_name get_publish_info unpublish_mount
insert-IsPublished c db m n f = elim (Bool-cases (knows_tenant m.tenant_id db)) [
  | inr e ↦ rw e refl
  | inl e ↦
      let r = new_published_row db.next_uuid m.tenant_id c in
      let after : Db = record db {
        published = db.published ++ r ∷ [];
        next_uuid = suc db.next_uuid;
      } in
      let name : get_published_by_name c.publish_name after ≡ err mismatched_types =
        found_after _ db.published r n (bytes_eq_refl c.publish_name) in
      rw e (
        name,
        found_after _ db.published r f (eq_refl c.mount_entry_id),
        (λ t. (refused_access c.publish_name t after name).0),
        (λ t. (refused_access c.publish_name t after name).1),
        refl,
        rw
            (
              there c.mount_entry_id db.published r refl,
              kept_rest c.mount_entry_id db.published r refl f,
            )
            refl,
      )
]

publish_mount-IsPublished :
    (c : PublishMountInput) (db : Db) → IsPublished c db (publish_mount c db)
unfolding publish_mount get_published_by_name get_publish_info
publish_mount-IsPublished c db = elim (Result-cases (get_published_by_name c.publish_name db)) [
  | inr (e, k) ↦ rw (publish_mount, k) refl
  | inl (some p, k) ↦ rw (publish_mount, k) refl
  | inl (none, k) ↦ elim (Result-cases (get_publish_info c.mount_entry_id db)) [
    | inr (e, l) ↦ rw (publish_mount, k, l) refl
    | inl (some p, l) ↦ rw (publish_mount, k, l) refl
    | inl (none, l) ↦
        elim (Option-cases
          (find (λ (m : MountRow). m.mount_entry_id == c.mount_entry_id) db.mounts)) [
            | inl e ↦ rw (publish_mount, k, l, e) refl
            | inr (m, e) ↦
                rw (publish_mount, k, l, e)
                  (insert-IsPublished c db m (found-none _ k) (found-none _ l))
          ]
  ]
]

-- A publication that succeeds is a row that cannot be read: finding it by its name or by its mount,
-- asking whether a tenant may have it, and resolving it fail for every tenant. It changes no mount,
-- and unpublishing its mount reports true and restores the table of publications.
pub publish_mount-unreadable :
    (c : PublishMountInput) (db db' : Db) (p : PublishedMount)
    → publish_mount c db ≡ (ok p, db')
    → (get_published_by_name c.publish_name db' ≡ err mismatched_types)
      × (get_publish_info c.mount_entry_id db' ≡ err mismatched_types)
      × ((t : TenantId) → check_access c.publish_name t db' ≡ err mismatched_types)
      × ((t : TenantId) → resolve_published c.publish_name t db' ≡ err mismatched_types)
      × (db'.mounts ≡ db.mounts)
      × (unpublish_mount c.mount_entry_id db' ≡ (true, record db' { published = db.published }))
publish_mount-unreadable c db db' p h = subst (IsPublished c db) h (publish_mount-IsPublished c db)
