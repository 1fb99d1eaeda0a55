-- ===== src/Storage/MountEntries/Changes.antt =====
-- src/storage/mount_entry.rs: updates and deletions of mounts, and the replacement of all mounts of
-- a tenant, with the cascades of the migrations' foreign keys.
use tarbox.Base.{
  ℕ, Bytes, bytes, Bool, false, not, ◌&&◌, ◌||◌, Option, none, some, List, [], ◌∷◌, ◌++◌, find,
  keep, any, map, ok, err, ◌==◌, if◌then◌else◌,
}
use tarbox.Path.{FsResult, storage}
use tarbox.Storage.Models.{
  TenantId, LayerId, Layer, LayerEntry, TextFileMetadata, TextLineMap, MountRow, PublishedRow, Db,
  and_then,
}
use tarbox.Storage.Inodes.{foreign_key, release}
use tarbox.Composition.Resolver.{MountMode, mode_as_str, MountEntry, validate_no_conflict}
use tarbox.Storage.MountEntries.{
  CreateMountEntry, UpdateMountEntry, row_to_mount_entry, new_mount_entry, insert_mount,
}

abbrev given {ℓ} : {A : Type ℓ} → Option A → A → A
given none old = old
given (some new) old = new

abbrev given_mode : Option MountMode → Bytes → Bytes
given_mode none old = old
given_mode (some mode) old = mode_as_str mode

abbrev given_text : Option Bytes → Option Bytes → Option Bytes
given_text none old = old
given_text (some new) old = some new

-- The columns that the statement sets; the numbers of its parameters follow the bindings.
abbrev pub patch_mount : UpdateMountEntry → MountRow → MountRow
patch_mount u r = record r {
  mode = given_mode u.mode r.mode;
  enabled = given u.enabled r.enabled;
  metadata = given_text u.metadata r.metadata;
}

abbrev pub patch_if : ℕ → UpdateMountEntry → MountRow → MountRow
patch_if i u r = if r.mount_entry_id == i then patch_mount u r else r

-- The statement runs before its row is read.
unfoldable pub update_mount_entry : ℕ → UpdateMountEntry → Db → FsResult MountEntry × Db
update_mount_entry i u db = elim (find (λ (r : MountRow). r.mount_entry_id == i) db.mounts) [
  | none ↦ (err (storage (bytes "no rows returned")), db)
  | some r ↦
      (row_to_mount_entry (patch_mount u r), record db { mounts = map (patch_if i u) db.mounts })
]

module _ (goes : MountRow → Bool) (db : Db) where
  abbrev pub mount_goes : ℕ → Bool
  mount_goes m = any (λ (r : MountRow). r.mount_entry_id == m && goes r) db.mounts

  abbrev pub holds_gone : Option ℕ → Bool
  holds_gone none = false
  holds_gone (some m) = mount_goes m

  abbrev layer_goes : LayerId → Bool
  layer_goes l = any (λ (r : Layer). r.layer_id == l && holds_gone r.mount_entry_id) db.layers

  abbrev parent_goes : Option LayerId → Bool
  parent_goes none = false
  parent_goes (some l) = layer_goes l

  -- ON DELETE SET NULL of the current layer.
  abbrev pub forget_layer : MountRow → MountRow
  forget_layer r =
      if parent_goes r.current_layer_id then record r { current_layer_id = none } else r

  -- A row that stays and refers to one that goes.
  abbrev pub still_used : Bool
  still_used =
      any (λ (r : MountRow). not (goes r) && holds_gone r.source.source_mount_id) db.mounts
      || (any (λ (r : Layer). not (layer_goes r.layer_id) && parent_goes r.parent_layer_id)
            db.layers
          || any (λ (c : TenantId × LayerId). layer_goes c.1) db.current)

  -- `DELETE FROM mount_entries WHERE ..`
  unfoldable pub delete_mounts : FsResult (Unit {0}) × Db
  delete_mounts = if still_used then (err (storage foreign_key), db) else (
    ok tt,
    record db {
      mounts = map forget_layer (keep (λ (r : MountRow). not (goes r)) db.mounts);
      published = keep (λ (p : PublishedRow). not (mount_goes p.mount_entry_id)) db.published;
      layers = keep (λ (r : Layer). not (layer_goes r.layer_id)) db.layers;
      entries = keep (λ (e : LayerEntry). not (layer_goes e.layer_id)) db.entries;
      text_metadata = keep (λ (m : TextFileMetadata). not (layer_goes m.layer_id)) db.text_metadata;
      text_blocks =
          release (keep (λ (m : TextLineMap). layer_goes m.layer_id) db.line_map) db.text_blocks;
      line_map = keep (λ (m : TextLineMap). not (layer_goes m.layer_id)) db.line_map;
    },
  )

unfoldable pub delete_mount_entry : ℕ → Db → FsResult Bool × Db
unfolding delete_mounts
delete_mount_entry i db =
    and_then (delete_mounts (λ (r : MountRow). r.mount_entry_id == i) db)
      λ _ db'. (ok (any (λ (r : MountRow). r.mount_entry_id == i) db.mounts), db')

-- The loop over the new entries, with those before it.
unfoldable pub validate_all :
    TenantId → List MountEntry → List CreateMountEntry → FsResult (Unit {0})
validate_all t before [] = ok tt
validate_all t before (c ∷ cs) =
    let rest = validate_all t (before ++ new_mount_entry 0 t c ∷ []) cs in
    elim (validate_no_conflict before c.virtual_path c.is_file) [
      | err e ↦ err (storage (bytes "MountPathConflict"))
      | ok u ↦ rest
    ]

unfoldable pub insert_all : TenantId → List CreateMountEntry → Db → FsResult (List MountEntry) × Db
insert_all t [] db = (ok [], db)
insert_all t (c ∷ cs) db =
    and_then (insert_mount t c db)
      λ m db'. and_then (insert_all t cs db') λ ms db''. (ok (m ∷ ms), db'')

-- A transaction that is not committed leaves nothing behind.
abbrev pub commit {ℓ} : {A : Type ℓ} → Db → FsResult A × Db → FsResult A × Db
commit old (ok a, db) = (ok a, db)
commit old (err e, db) = (err e, old)

-- The entries of the check have ids of their own, which nothing reads.
unfoldable pub set_mount_entries :
    TenantId → List CreateMountEntry → Db → FsResult (List MountEntry) × Db
unfolding validate_all insert_all delete_mounts
set_mount_entries t cs db = elim (validate_all t [] cs) [
  | err e ↦ (err e, db)
  | ok u ↦ commit db (
      and_then (delete_mounts (λ (r : MountRow). r.tenant_id == t) db) λ _ db'. insert_all t cs db')
]
