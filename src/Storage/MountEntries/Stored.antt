-- ===== src/Storage/MountEntries/Stored.antt =====
-- src/storage/mount_entry.rs: what is written to a row, and that the row cannot be read.
use tarbox.Base.{
  suc, ◌∙◌, map, keep, keep-append, ℕ, ◌≡◌, refl, subst, Bytes, bytes_eq, bytes_eq_refl, Bool, true,
  false, ◌&&◌, ◌||◌, none, some, List, [], ◌∷◌, ◌++◌, find, find-append_none, any, ok, err, arith,
  Bool-cases, Result-cases, inl, inr, ◌==◌, eq_refl,
}
use tarbox.Path.{FsResult}
use tarbox.Storage.Models.{TenantId, MountRow, Db, mismatched_types}
use tarbox.Storage.Layers.{knows_mount}
use tarbox.Composition.Resolver.{
  MountSource, host, layer, published, working_layer, MountMode, read_only, read_write,
  copy_on_write, MountEntry, parse_mode, mode_as_str,
}
use tarbox.Storage.MountEntries.{
  UpdateMountEntry, list_mount_entries, collect_entries, place_mount, order_mounts,
  CreateMountEntry, source_columns, parse_source, row_to_mount_entry, new_mount_row,
  get_mount_entry, get_mount_entry_by_name, get_mount_entry_by_path, create_mount_entry,
  check_path_conflict, insert_mount, mount_taken, mount_refers, found_entry,
}
use tarbox.Storage.MountEntries.Changes.{update_mount_entry, patch_if}

parse-source_columns : (s : MountSource) → parse_source (source_columns s) ≡ ok s
unfolding parse_source source_columns bytes_eq
parse-source_columns (host path) = refl
parse-source_columns (layer m l subpath) = refl
parse-source_columns (published name subpath) = refl
parse-source_columns working_layer = refl

parse-mode : (m : MountMode) → parse_mode (mode_as_str m) ≡ some m
unfolding parse_mode mode_as_str bytes_eq
parse-mode read_only = refl
parse-mode read_write = refl
parse-mode copy_on_write = refl

find-any : (p : MountRow → Bool) (rs : List MountRow) → any p rs ≡ false → find p rs ≡ none
find-any p [] h = refl
find-any p (r ∷ rs) h = ground (arith, find-any p rs)

-- A row that is found cannot be read.
found :
    (p : MountRow → Bool) (rs : List MountRow) (r : MountRow)
    → any p rs ≡ false
    → p r ≡ true
    → found_entry (find p (rs ++ r ∷ [])) ≡ err mismatched_types
unfolding row_to_mount_entry
found p rs r a h = rw (find-append_none p rs (r ∷ []) (find-any p rs a), h) refl

taken_split :
    (t : TenantId) (name path : Bytes) (rs : List MountRow)
    → any
        (λ (r : MountRow).
          r.tenant_id == t && (bytes_eq r.name name || bytes_eq r.virtual_path path))
        rs
      ≡ false
    → (any (λ (r : MountRow). r.tenant_id == t && bytes_eq r.name name) rs ≡ false)
      × (any (λ (r : MountRow). r.tenant_id == t && bytes_eq r.virtual_path path) rs ≡ false)
taken_split t name path [] h = (refl, refl)
taken_split t name path (r ∷ rs) h = ground (arith, taken_split t name path rs)

place-cons :
    (collate : Bytes → Bytes → Bool) (r : MountRow) (rs : List MountRow)
    → (x : MountRow) × (xs : List MountRow) × (place_mount collate r rs ≡ x ∷ xs)
place-cons collate r [] = (r, [], refl)
place-cons collate r (x ∷ rs) = elim (Bool-cases (collate r.name x.name)) [
  | inl e ↦ (r, x ∷ rs, rw e refl)
  | inr e ↦ (x, place_mount collate r rs, rw e refl)
]

-- A list with a row cannot be read.
collect-cons :
    (rs : List MountRow) (x : MountRow) (xs : List MountRow)
    → rs ≡ x ∷ xs
    → collect_entries rs ≡ err mismatched_types
unfolding row_to_mount_entry
collect-cons rs x xs e = rw e refl

order-cons :
    (collate : Bytes → Bytes → Bool) (rs : List MountRow) (r : MountRow)
    → collect_entries (order_mounts collate (rs ++ r ∷ [])) ≡ err mismatched_types
order-cons collate [] r = collect-cons (r ∷ []) r [] refl
order-cons collate (x ∷ rs) r =
    let (y, ys, e) = place-cons collate x (order_mounts collate (rs ++ r ∷ [])) in
    collect-cons (place_mount collate x (order_mounts collate (rs ++ r ∷ []))) y ys e

-- What a creation that succeeds says of the statements after it.
abbrev pub IsUnreadable :
    (Bytes → Bytes → Bool) → TenantId → CreateMountEntry → FsResult MountEntry × Db → Type 0
IsUnreadable collate t c (err e, db) = Unit
IsUnreadable collate t c (ok m, db) =
    (get_mount_entry m.mount_entry_id db ≡ err mismatched_types)
    × (get_mount_entry_by_name t c.name db ≡ err mismatched_types)
    × (get_mount_entry_by_path t c.virtual_path db ≡ err mismatched_types)
    × (list_mount_entries collate t db ≡ err mismatched_types)
    × ((next : CreateMountEntry)
        → create_mount_entry collate t next db ≡ (err mismatched_types, db))
    × ((u : UpdateMountEntry)
        → update_mount_entry m.mount_entry_id u db ≡ (
          err mismatched_types,
          record db { mounts = map (patch_if m.mount_entry_id u) db.mounts },
        ))

listed :
    (collate : Bytes → Bytes → Bool) (t : TenantId) (db : Db) (rs : List MountRow) (r : MountRow)
    → db.mounts ≡ rs ++ r ∷ []
    → (r.tenant_id == t) ≡ true
    → list_mount_entries collate t db ≡ err mismatched_types
unfolding list_mount_entries
listed collate t db rs r e h =
    rw (e, keep-append (λ (x : MountRow). x.tenant_id == t) rs (r ∷ []), h)
      (order-cons collate (keep (λ (x : MountRow). x.tenant_id == t) rs) r)

refused :
    (collate : Bytes → Bytes → Bool) (t : TenantId) (c : CreateMountEntry) (db : Db)
    → list_mount_entries collate t db ≡ err mismatched_types
    → create_mount_entry collate t c db ≡ (err mismatched_types, db)
unfolding create_mount_entry check_path_conflict
refused collate t c db e = rw (create_mount_entry, check_path_conflict, e) refl

changed :
    (i : ℕ) (u : UpdateMountEntry) (db : Db) (r : MountRow)
    → find (λ (x : MountRow). x.mount_entry_id == i) db.mounts ≡ some r
    → update_mount_entry i u db
      ≡ (err mismatched_types, record db { mounts = map (patch_if i u) db.mounts })
unfolding update_mount_entry row_to_mount_entry
changed i u db r e = rw (update_mount_entry, e) refl

insert-IsUnreadable :
    (collate : Bytes → Bytes → Bool) (t : TenantId) (c : CreateMountEntry) (db : Db)
    → knows_mount db.next_uuid db ≡ false
    → IsUnreadable collate t c (insert_mount t c db)
unfolding get_mount_entry get_mount_entry_by_name get_mount_entry_by_path
insert-IsUnreadable collate t c db fresh = elim (Bool-cases (mount_taken t c db)) [
  | inl e ↦ rw e tt
  | inr e ↦ elim (Bool-cases (mount_refers t c db)) [
    | inr k ↦ rw (e, k) tt
    | inl k ↦
        let (n, p) = taken_split t c.name c.virtual_path db.mounts e in
        let r = new_mount_row db.next_uuid t c in
        let after : Db = record db { mounts = db.mounts ++ r ∷ []; next_uuid = suc db.next_uuid } in
        let list = listed collate t after db.mounts r refl (eq_refl t) in
        let row : find (λ (x : MountRow). x.mount_entry_id == db.next_uuid) after.mounts ≡ some r =
          find-append_none (λ (x : MountRow). x.mount_entry_id == db.next_uuid) db.mounts (r ∷ [])
            (find-any (λ (x : MountRow). x.mount_entry_id == db.next_uuid) db.mounts fresh)
          ∙ rw (eq_refl db.next_uuid) refl in
        rw (e, k)
          (
            found _ db.mounts r fresh (eq_refl db.next_uuid),
            found _ db.mounts r n (rw (eq_refl t, bytes_eq_refl c.name) refl),
            found _ db.mounts r p (rw (eq_refl t, bytes_eq_refl c.virtual_path) refl),
            list,
            (λ next. refused collate t next after list),
            λ u. changed db.next_uuid u after r row,
          )
  ]
]

create-IsUnreadable :
    (collate : Bytes → Bytes → Bool) (t : TenantId) (c : CreateMountEntry) (db : Db)
    → knows_mount db.next_uuid db ≡ false
    → IsUnreadable collate t c (create_mount_entry collate t c db)
unfolding create_mount_entry
create-IsUnreadable collate t c db fresh =
    elim (Result-cases (check_path_conflict collate t c.virtual_path c.is_file none db)) [
      | inr (e, k) ↦ rw (create_mount_entry, k) tt
      | inl (true, k) ↦ rw (create_mount_entry, k) tt
      | inl (false, k) ↦ rw (create_mount_entry, k) (insert-IsUnreadable collate t c db fresh)
    ]

-- After a mount was created under an id that no mount had, its row cannot be read: finding it by its
-- id, its name or its path and listing the mounts of the tenant fail, every further creation of a
-- mount of the tenant fails and changes nothing, and an update of the mount fails although the row
-- is changed.
pub create_mount_entry-unreadable :
    (collate : Bytes → Bytes → Bool) (t : TenantId) (c : CreateMountEntry) (db db' : Db)
    (m : MountEntry)
    → knows_mount db.next_uuid db ≡ false
    → create_mount_entry collate t c db ≡ (ok m, db')
    → (get_mount_entry m.mount_entry_id db' ≡ err mismatched_types)
      × (get_mount_entry_by_name t c.name db' ≡ err mismatched_types)
      × (get_mount_entry_by_path t c.virtual_path db' ≡ err mismatched_types)
      × (list_mount_entries collate t db' ≡ err mismatched_types)
      × ((next : CreateMountEntry)
          → create_mount_entry collate t next db' ≡ (err mismatched_types, db'))
      × ((u : UpdateMountEntry)
          → update_mount_entry m.mount_entry_id u db' ≡ (
            err mismatched_types,
            record db' { mounts = map (patch_if m.mount_entry_id u) db'.mounts },
          ))
create_mount_entry-unreadable collate t c db db' m fresh h =
    subst (IsUnreadable collate t c) h (create-IsUnreadable collate t c db fresh)
