-- ===== src/Storage/MountEntries/Steps.antt =====
-- src/storage/mount_entry.rs and the statements of src/storage/layer.rs on the layers of mounts, as
-- steps from one database to the next, and what they all keep.
pub mod Invariant
use tarbox.Base.{
  ℕ, ◌≡◌, refl, Bytes, Bool, true, false, Option, none, List, [], ◌∷◌, map, keep, All, All-keep, ok,
  err, arith, Bool-cases, inl, inr, find, is_some, ◌==◌, Option-cases,
}
use tarbox.Path.{FsResult}
use tarbox.Storage.Models.{TenantId, LayerId, CreateLayerInput, MountRow, Db, and_then}
use tarbox.Storage.Layers.{create_layer, delete_layer_row, without_current, get_layer, layer_used}
use tarbox.Storage.Layers.Mounts.{create_initial_layers, create_snapshot}
use tarbox.Storage.MountEntries.{CreateMountEntry, UpdateMountEntry, create_mount_entry}
use tarbox.Storage.MountEntries.Changes.{
  update_mount_entry, patch_if, delete_mounts, delete_mount_entry, set_mount_entries, forget_layer,
  still_used,
}
use tarbox.Storage.MountEntries.Apart.{NoConflicts, rows_clash, keep-NoConflicts, map-NoConflicts}

-- A statement on mounts or on the layers of mounts, whether it succeeds or not.
pub data Step (collate : Bytes → Bytes → Bool) (show : ℕ → Bytes) : Db → Db → Type 0 where
  create_mount :
      (t : TenantId) (c : CreateMountEntry) (db : Db)
      → Step collate show db (create_mount_entry collate t c db).1
  update_mount :
      (i : ℕ) (u : UpdateMountEntry) (db : Db) → Step collate show db (update_mount_entry i u db).1
  delete_mount : (i : ℕ) (db : Db) → Step collate show db (delete_mount_entry i db).1
  set_mounts :
      (t : TenantId) (cs : List CreateMountEntry) (db : Db)
      → Step collate show db (set_mount_entries t cs db).1
  create_layers :
      (t : TenantId) (m : ℕ) (db : Db) → Step collate show db (create_initial_layers show t m db).1
  snapshot :
      (m : ℕ) (name : Bytes) (description : Option Bytes) (db : Db)
      → Step collate show db (create_snapshot show m name description db).1
  delete_layer :
      (t : TenantId) (l : LayerId) (db : Db) → Step collate show db (delete_layer_row t l db).1

pub data Reach (collate : Bytes → Bytes → Bool) (show : ℕ → Bytes) (s : Db) : Db → Type 0 where
  here : Reach collate show s s
  next : {t u : Db} → Reach collate show s t → Step collate show t u → Reach collate show s u

-- No mount has a current layer.
abbrev pub AllUnset : List MountRow → Type 0
AllUnset = All (λ (r : MountRow). r.current_layer_id ≡ none)

abbrev pub IsApart : Db → Type 0
IsApart db = NoConflicts db.mounts × AllUnset db.mounts

pub map-AllUnset :
    (f : MountRow → MountRow)
    → ((r : MountRow) → r.current_layer_id ≡ none → (f r).current_layer_id ≡ none)
    → (rs : List MountRow) → AllUnset rs
    → AllUnset (map f rs)
map-AllUnset f h [] a = tt
map-AllUnset f h (r ∷ rs) a = (h r a.0, map-AllUnset f h rs a.1)

module _ {A B : Type 0} (P : Db → Type 0) where
  pub and_then-keeps :
      (first : FsResult A × Db) (k : A → Db → FsResult B × Db)
      → P first.1
      → ((a : A) (db : Db) → P db → P (k a db).1)
      → P (and_then first k).1
  and_then-keeps (ok a, db) k h s = s a db h
  and_then-keeps (err e, db) k h s = h

pub delete_mounts-IsApart :
    (goes : MountRow → Bool) (db : Db) → IsApart db → IsApart (delete_mounts goes db).1
unfolding delete_mounts
delete_mounts-IsApart goes db h = elim (Bool-cases (still_used goes db)) [
  | inl e ↦ rw (delete_mounts, e) h
  | inr e ↦
      rw (delete_mounts, e)
        (
          map-NoConflicts (forget_layer goes db) (λ r q. ground arith) _
              (keep-NoConflicts _ db.mounts h.0),
          map-AllUnset (forget_layer goes db) (λ r k. ground arith) _ (All-keep _ _ db.mounts h.1),
        )
]

pub update-IsApart :
    (i : ℕ) (u : UpdateMountEntry) (db : Db) → IsApart db → IsApart (update_mount_entry i u db).1
unfolding update_mount_entry
update-IsApart i u db h =
    elim (Option-cases (find (λ (r : MountRow). r.mount_entry_id == i) db.mounts)) [
      | inl e ↦ rw (update_mount_entry, e) h
      | inr (r, e) ↦
          rw (update_mount_entry, e)
            (
              map-NoConflicts (patch_if i u) (λ r q. ground arith) db.mounts h.0,
              map-AllUnset (patch_if i u) (λ r k. ground arith) db.mounts h.1,
            )
    ]

pub layer-IsApart : (c : CreateLayerInput) (db : Db) → IsApart db → IsApart (create_layer c db).1
unfolding create_layer
layer-IsApart c db h = ground (arith, h)

pub delete_layer-IsApart : (t l : ℕ) (db : Db) → IsApart db → IsApart (delete_layer_row t l db).1
unfolding delete_layer_row
delete_layer-IsApart t l db h = elim (Bool-cases (is_some (get_layer t l db))) [
  | inr e ↦ rw (delete_layer_row, e) h
  | inl e ↦ elim (Bool-cases (layer_used l db)) [
    | inl k ↦ rw (delete_layer_row, e, k) h
    | inr k ↦
        rw (delete_layer_row, e, k)
          (
            map-NoConflicts (without_current l) (λ r q. ground arith) db.mounts h.0,
            map-AllUnset (without_current l) (λ r q. ground arith) db.mounts h.1,
          )
  ]
]
