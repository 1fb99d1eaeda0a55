-- ===== src/Storage/MountEntries/Steps/Invariant.antt =====
-- What every step keeps holds in every database that is reached.
use tarbox.Base.{
  ℕ, suc, ◌≡◌, refl, Bytes, Bool, true, false, not, Option, none, List, [], ◌∷◌, ◌++◌, map, keep,
  All, All-append, All-map, ok, err, arith, Bool-cases, Result-cases, Option-cases, inl, inr, ◌==◌,
}
use tarbox.Path.{FsResult}
use tarbox.Storage.Models.{TenantId, MountRow, Db, and_then}
use tarbox.Storage.Layers.{create_layer}
use tarbox.Storage.Layers.Mounts.{
  create_initial_layers, create_snapshot, seal_working, get_working_layer,
}
use tarbox.Composition.Resolver.{MountEntry, validate_no_conflict}
use tarbox.Storage.MountEntries.{
  CreateMountEntry, create_mount_entry, insert_mount, mount_taken, mount_refers, new_mount_row,
  new_mount_entry, check_path_conflict,
}
use tarbox.Storage.MountEntries.Changes.{
  validate_all, insert_all, delete_mounts, still_used, forget_layer, delete_mount_entry,
  set_mount_entries, commit,
}
use tarbox.Storage.MountEntries.Apart.{clash, validate-clash, check-apart, append-NoConflicts}
use tarbox.Storage.MountEntries.Steps.{
  Step, create_mount, update_mount, delete_mount, set_mounts, create_layers, snapshot, delete_layer,
  Reach, here, next, IsApart, and_then-keeps, delete_mounts-IsApart, update-IsApart, layer-IsApart,
  delete_layer-IsApart,
}

-- No mount of the tenant conflicts with a new one.
abbrev FreeFor : TenantId → Bytes → Bool → Db → Type 0
FreeFor t q g db =
    All (λ (r : MountRow). (r.tenant_id == t) ≡ true → clash r.virtual_path r.is_file q g ≡ false)
      db.mounts

abbrev with_mount : TenantId → CreateMountEntry → Db → Db
with_mount t c db = record db {
  mounts = db.mounts ++ new_mount_row db.next_uuid t c ∷ [];
  next_uuid = suc db.next_uuid;
}

with_mount-IsApart :
    (t : TenantId) (c : CreateMountEntry) (db : Db)
    → FreeFor t c.virtual_path c.is_file db
    → IsApart db
    → IsApart (with_mount t c db)
with_mount-IsApart t c db a h = (
  append-NoConflicts db.mounts (new_mount_row db.next_uuid t c) h.0
      (All-map db.mounts (λ r f. ground (arith, f)) a),
  All-append _ db.mounts (new_mount_row db.next_uuid t c ∷ []) h.1 (refl, tt),
)

insert-IsApart :
    (t : TenantId) (c : CreateMountEntry) (db : Db)
    → FreeFor t c.virtual_path c.is_file db
    → IsApart db
    → IsApart (insert_mount t c db).1
insert-IsApart t c db a h = elim (Bool-cases (mount_taken t c db)) [
  | inl e ↦ rw e h
  | inr e ↦ elim (Bool-cases (mount_refers t c db)) [
    | inr k ↦ rw (e, k) h
    | inl k ↦ rw (e, k) (with_mount-IsApart t c db a h)
  ]
]

create-IsApart :
    (collate : Bytes → Bytes → Bool) (t : TenantId) (c : CreateMountEntry) (db : Db)
    → IsApart db
    → IsApart (create_mount_entry collate t c db).1
unfolding create_mount_entry
create-IsApart collate t c db h =
    elim (Result-cases (check_path_conflict collate t c.virtual_path c.is_file none db)) [
      | inr (e, k) ↦ rw (create_mount_entry, k) h
      | inl (true, k) ↦ rw (create_mount_entry, k) h
      | inl (false, k) ↦
          rw (create_mount_entry, k)
            (insert-IsApart t c db (check-apart collate t c.virtual_path c.is_file db k) h)
    ]

-- The entries of the check tell what conflicts with the tenant's rows.
abbrev Reflects : TenantId → List MountEntry → Db → Type 0
Reflects t before db =
    (q : Bytes) (g : Bool)
    → All (λ (m : MountEntry). clash m.virtual_path m.is_file q g ≡ false) before
    → FreeFor t q g db

All-split {ℓ κ} :
    {A : Type ℓ} (P : A → Type κ) (xs ys : List A) → All P (xs ++ ys) → All P xs × All P ys
All-split P [] ys h = (tt, h)
All-split P (x ∷ xs) ys h = let (a, b) = All-split P xs ys h.1 in ((h.0, a), b)

with-Reflects :
    (t : TenantId) (c : CreateMountEntry) (before : List MountEntry) (db : Db)
    → Reflects t before db
    → Reflects t (before ++ new_mount_entry 0 t c ∷ []) (with_mount t c db)
with-Reflects t c before db f q g a =
    let (b, n) = All-split _ before (new_mount_entry 0 t c ∷ []) a in
    All-append _ db.mounts (new_mount_row db.next_uuid t c ∷ []) (f q g b) ((λ e. n.0), tt)

insert_all-IsApart :
    (t : TenantId) (cs : List CreateMountEntry) (before : List MountEntry) (db : Db)
    → validate_all t before cs ≡ ok tt
    → Reflects t before db
    → IsApart db
    → IsApart (insert_all t cs db).1
unfolding insert_all validate_all
insert_all-IsApart t [] before db v f h = h
insert_all-IsApart t (c ∷ cs) before db v f h =
    elim (Result-cases (validate_no_conflict before c.virtual_path c.is_file)) [
      | inr (e, k) ↦ cc (rw (validate_all, k) at v)
      | inl (tt, k) ↦
          let free =
            f c.virtual_path c.is_file (validate-clash before c.virtual_path c.is_file k) in
          let v' : validate_all t (before ++ new_mount_entry 0 t c ∷ []) cs ≡ ok tt =
            rw (validate_all, k) at v in
          elim (Bool-cases (mount_taken t c db)) [
            | inl e ↦ rw (insert_all, e) h
            | inr e ↦ elim (Bool-cases (mount_refers t c db)) [
              | inr k ↦ rw (insert_all, e, k) h
              | inl k ↦
                  rw (insert_all, e, k)
                    (and_then-keeps IsApart (insert_all t cs (with_mount t c db)) _
                      (insert_all-IsApart t cs (before ++ new_mount_entry 0 t c ∷ [])
                        (with_mount t c db) v' (with-Reflects t c before db f)
                        (with_mount-IsApart t c db free h))
                      (λ ms d i. i))
            ]
          ]
    ]

commit-keeps :
    {A : Type 0} (P : Db → Type 0) (old : Db) (r : FsResult A × Db)
    → P old
    → P r.1
    → P (commit old r).1
commit-keeps P old (ok a, db) h k = k
commit-keeps P old (err e, db) h k = h

gone :
    (t : TenantId) (f : MountRow → MountRow) (P : MountRow → Type 0)
    → ((r : MountRow) → (f r).tenant_id ≡ r.tenant_id)
    → (rs : List MountRow)
    → All
        (λ (r : MountRow). (r.tenant_id == t) ≡ true → P r)
        (map f (keep (λ (r : MountRow). not (r.tenant_id == t)) rs))
gone t f P same [] = tt
gone t f P same (r ∷ rs) = elim (Bool-cases (r.tenant_id == t)) [
  | inl e ↦ rw e (gone t f P same rs)
  | inr e ↦ rw e ((λ k. cc (rw (same r) at k, e)), gone t f P same rs)
]

set-IsApart :
    (t : TenantId) (cs : List CreateMountEntry) (db : Db)
    → IsApart db
    → IsApart (set_mount_entries t cs db).1
unfolding set_mount_entries delete_mounts
set-IsApart t cs db h = elim (Result-cases (validate_all t [] cs)) [
  | inr (e, k) ↦ rw (set_mount_entries, k) h
  | inl (tt, k) ↦
      rw (set_mount_entries, k)
        (commit-keeps IsApart db
          (and_then (delete_mounts (λ (r : MountRow). r.tenant_id == t) db)
            λ _ db'. insert_all t cs db')
          h
          (elim (Bool-cases (still_used (λ (r : MountRow). r.tenant_id == t) db)) [
            | inl e ↦ rw (delete_mounts, e) h
            | inr e ↦
                rw (delete_mounts, e)
                  (insert_all-IsApart t cs [] _ k
                    (λ q g _.
                      gone t (forget_layer (λ (r : MountRow). r.tenant_id == t) db) _
                        (λ r. ground arith) db.mounts)
                    (rw (delete_mounts, e) at
                      (delete_mounts-IsApart (λ (r : MountRow). r.tenant_id == t) db h)))
          ]))
]

delete-IsApart : (i : ℕ) (db : Db) → IsApart db → IsApart (delete_mount_entry i db).1
unfolding delete_mount_entry
delete-IsApart i db h =
    and_then-keeps IsApart (delete_mounts (λ (r : MountRow). r.mount_entry_id == i) db) _
      (delete_mounts-IsApart (λ (r : MountRow). r.mount_entry_id == i) db h) λ u d k. k

initial-IsApart :
    (show : ℕ → Bytes) (t m : ℕ) (db : Db)
    → IsApart db
    → IsApart (create_initial_layers show t m db).1
unfolding create_initial_layers
initial-IsApart show t m db h =
    and_then-keeps IsApart (create_layer _ db) _ (layer-IsApart _ db h)
      λ base d i. and_then-keeps IsApart (create_layer _ d) _ (layer-IsApart _ d i) λ w d' j. j

seal-IsApart :
    (t l : ℕ) (name : Bytes) (description : Option Bytes) (db : Db)
    → IsApart db
    → IsApart (seal_working t l name description db).1
unfolding seal_working
seal-IsApart t l name description db h = ground (arith, h)

snapshot-IsApart :
    (show : ℕ → Bytes) (m : ℕ) (name : Bytes) (description : Option Bytes) (db : Db)
    → IsApart db
    → IsApart (create_snapshot show m name description db).1
unfolding create_snapshot
snapshot-IsApart show m name description db h = elim (Option-cases (get_working_layer m db)) [
  | inl e ↦ rw (create_snapshot, e) h
  | inr (w, e) ↦
      rw (create_snapshot, e)
        (and_then-keeps IsApart (seal_working w.tenant_id w.layer_id name description db) _
          (seal-IsApart w.tenant_id w.layer_id name description db h) λ u d i. layer-IsApart _ d i)
]

module _ {collate : Bytes → Bytes → Bool} {show : ℕ → Bytes} where
  Step-IsApart : {s t : Db} → Step collate show s t → IsApart s → IsApart t
  Step-IsApart (create_mount t c db) h = create-IsApart collate t c db h
  Step-IsApart (update_mount i u db) h = update-IsApart i u db h
  Step-IsApart (delete_mount i db) h = delete-IsApart i db h
  Step-IsApart (set_mounts t cs db) h = set-IsApart t cs db h
  Step-IsApart (create_layers t m db) h = initial-IsApart show t m db h
  Step-IsApart (snapshot m name description db) h = snapshot-IsApart show m name description db h
  Step-IsApart (delete_layer t l db) h = delete_layer-IsApart t l db h

  -- From a database in which no two mounts of a tenant conflict and no mount has a current layer,
  -- creations, updates, deletions and replacements of mounts, new layers and snapshots of mounts and
  -- deletions of layers lead only to such databases, whether they succeed or fail.
  pub Reach-IsApart : {s t : Db} → IsApart s → Reach collate show s t → IsApart t
  Reach-IsApart h here = h
  Reach-IsApart h (next r st) = Step-IsApart st (Reach-IsApart h r)
