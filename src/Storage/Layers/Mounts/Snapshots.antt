-- ===== src/Storage/Layers/Mounts/Snapshots.antt =====
-- A snapshot stops the work of the working layer of a mount and puts a new one above it.
use tarbox.Base.{
  ℕ, suc, ◌≡◌, refl, ap, ◌∙◌, Bytes, bytes, bytes_eq, Bool, true, false, not, ◌&&◌, Option, none,
  some, List, [], ◌∷◌, ◌++◌, find, any, map, All, ok, ◌==◌, eq_refl, arith, Bool-cases, inl, inr,
  All-append, find-append, find-append_none,
}
use mathlib.Core.Option.{some-injective}
use tarbox.Storage.Models.{TenantId, LayerId, Layer, CreateLayerInput, Db}
use tarbox.Storage.Inodes.{holds}
use tarbox.Storage.Layers.{
  knows_mount, create_layer, new_layer, get_layer, is_layer, knows_layer, knows_tenant,
}
use tarbox.Storage.Layers.Mounts.{
  works_for, get_working_layer, mount_working, sealed_as, seal_row, seal_working, create_snapshot,
}

-- Every working layer of the mount is this one.
abbrev pub OnlyWorks : ℕ → LayerId → List Layer → Type 0
OnlyWorks m l ls = All (λ (r : Layer). works_for m r ≡ true → r.layer_id ≡ l) ls

none_works :
    (m l : ℕ) (name : Bytes) (description : Option Bytes) (ls : List Layer)
    → OnlyWorks m l ls
    → find (works_for m) (map (seal_row l name description) ls) ≡ none
none_works m l name description [] h = refl
none_works m l name description (r ∷ rs) h =
    ground (arith, none_works m l name description rs h.1, h.0)

same_known :
    (l k : LayerId) (name : Bytes) (description : Option Bytes) (ls : List Layer)
    → any (λ (r : Layer). r.layer_id == k) (map (seal_row l name description) ls)
      ≡ any (λ (r : Layer). r.layer_id == k) ls
same_known l k name description [] = refl
same_known l k name description (r ∷ rs) = ground (arith, same_known l k name description rs)

none_active :
    (m l : ℕ) (name : Bytes) (description : Option Bytes) (ls : List Layer)
    → OnlyWorks m l ls
    → any
        (λ (r : Layer). r.is_working && any (holds r.mount_entry_id) (m ∷ []))
        (map (seal_row l name description) ls)
      ≡ false
none_active m l name description [] h = refl
none_active m l name description (r ∷ rs) h =
    ground (arith, none_active m l name description rs h.1, h.0)

sealed-OnlyWorks :
    (m l k : ℕ) (name : Bytes) (description : Option Bytes) (ls : List Layer)
    → OnlyWorks m l ls
    → OnlyWorks m k (map (seal_row l name description) ls)
sealed-OnlyWorks m l k name description [] h = tt
sealed-OnlyWorks m l k name description (r ∷ rs) h =
    ((λ e. ground (arith, h.0)), sealed-OnlyWorks m l k name description rs h.1)

-- Another layer of the tenant has this name.
abbrev pub taken_beside : TenantId → LayerId → Bytes → List Layer → Bool
taken_beside t l name ls =
    any (λ (r : Layer). r.tenant_id == t && (bytes_eq r.layer_name name && not (r.layer_id == l)))
      ls

free_after :
    (t l : ℕ) (name other : Bytes) (description : Option Bytes) (ls : List Layer)
    → bytes_eq name other ≡ false
    → taken_beside t l other ls ≡ false
    → any
        (λ (r : Layer). r.tenant_id == t && bytes_eq r.layer_name other)
        (map (seal_row l name description) ls)
      ≡ false
free_after t l name other description [] d h = refl
free_after t l name other description (r ∷ rs) d h =
    ground (arith, free_after t l name other description rs d)

sealed_row :
    (t l : ℕ) (name : Bytes) (description : Option Bytes) (x : Layer)
    → is_layer t l (seal_row l name description x) ≡ is_layer t l x
sealed_row t l name description x = ground arith

found_sealed :
    (t l : ℕ) (name : Bytes) (description : Option Bytes) (ls : List Layer) (w : Layer)
    → find (is_layer t l) ls ≡ some w
    → find (is_layer t l) (map (seal_row l name description) ls)
      ≡ some (sealed_as name description w)
found_sealed t l name description [] w h = cc h
found_sealed t l name description (x ∷ ls) w h = elim (Bool-cases (is_layer t l x)) [
  | inl e ↦
      let same : x ≡ w = some-injective x w (rw e at h) in
      let own : (x.layer_id == l) ≡ true = ground arith in
      rw (sealed_row t l name description x, e, own)
        (ap (λ (y : Layer). some (sealed_as name description y)) same)
  | inr e ↦
      rw (sealed_row t l name description x, e) (found_sealed t l name description ls w (rw e at h))
]

module _ (show : ℕ → Bytes) (m : ℕ) (name : Bytes) (description : Option Bytes) (db : Db)
    (w : Layer) where
  -- The working layer of the mount is the only one, and its row is found; tenant and mount are
  -- there; and the names of the snapshot and of the next working layer are free and differ.
  pub record CanSnapshot : Type 0 where
    pub working : get_working_layer m db ≡ some w
    pub single : OnlyWorks m w.layer_id db.layers
    pub row : get_layer w.tenant_id w.layer_id db ≡ some w
    pub tenant_there : knows_tenant w.tenant_id db ≡ true
    pub mount_there : knows_mount m db ≡ true
    pub name_free : taken_beside w.tenant_id w.layer_id name db.layers ≡ false
    pub next_free :
        taken_beside w.tenant_id w.layer_id (bytes "working-" ++ show m) db.layers ≡ false
    pub names_differ : bytes_eq name (bytes "working-" ++ show m) ≡ false

  abbrev sealed_db : Db
  sealed_db = record db { layers = map (seal_row w.layer_id name description) db.layers }

  abbrev next_input : CreateLayerInput
  next_input = mount_working show w.tenant_id w.layer_id m

  abbrev with_next : Db
  with_next = record sealed_db {
    layers = sealed_db.layers ++ new_layer next_input sealed_db ∷ [];
    next_uuid = suc db.next_uuid;
  }

  sealed :
      CanSnapshot → seal_working w.tenant_id w.layer_id name description db ≡ (ok tt, sealed_db)
  unfolding seal_working
  sealed c = rw (seal_working, c.name_free) refl

  parent_known : CanSnapshot → knows_layer w.layer_id sealed_db ≡ true
  parent_known c =
      same_known w.layer_id w.layer_id name description db.layers
      ∙ known db.layers (unfold get_layer in c.row)
    where
      known :
          (ls : List Layer)
          → find (is_layer w.tenant_id w.layer_id) ls ≡ some w
          → any (λ (r : Layer). r.layer_id == w.layer_id) ls ≡ true
      known [] h = cc h
      known (x ∷ ls) h = ground (arith, known ls)

  next_created :
      CanSnapshot
      → create_layer next_input sealed_db ≡ (ok (new_layer next_input sealed_db), with_next)
  unfolding create_layer
  next_created c =
      rw
        (
          create_layer,
          free_after w.tenant_id w.layer_id name (bytes "working-" ++ show m) description db.layers
              c.names_differ c.next_free,
          none_active m w.layer_id name description db.layers c.single,
          c.tenant_there,
          parent_known c,
          c.mount_there,
        )
        refl

  started :
      CanSnapshot
      → create_snapshot show m name description db
        ≡ (ok (new_layer next_input sealed_db), with_next)
  unfolding create_snapshot
  started c = rw (create_snapshot, c.working, sealed c, next_created c) refl

  -- A snapshot of a mount succeeds if its working layer is the only one and its row is found, tenant
  -- and mount are there, and the names of the snapshot and of the next working layer are free and
  -- differ. The mount then has one working layer, a new one, whose parent is the layer that worked
  -- before; and that layer keeps everything but its name and description, and does not work any
  -- more: it is readonly only if it was.
  pub create_snapshot-advances :
      CanSnapshot
      → (new : Layer) × (db' : Db) × (create_snapshot show m name description db ≡ (ok new, db'))
        × (get_working_layer m db' ≡ some new)
        × (new.parent_layer_id ≡ some w.layer_id)
        × (get_layer w.tenant_id w.layer_id db' ≡ some (sealed_as name description w))
        × OnlyWorks m new.layer_id db'.layers
  unfolding get_working_layer get_layer
  create_snapshot-advances c =
      let new = new_layer next_input sealed_db in
      (
        new,
        with_next,
        started c,
        find-append_none (works_for m) sealed_db.layers (new ∷ [])
              (none_works m w.layer_id name description db.layers c.single)
            ∙ rw (eq_refl m) refl,
        refl,
        find-append (is_layer w.tenant_id w.layer_id) sealed_db.layers (new ∷ [])
            (sealed_as name description w)
            (found_sealed w.tenant_id w.layer_id name description db.layers w c.row),
        All-append _ sealed_db.layers (new ∷ [])
            (sealed-OnlyWorks m w.layer_id new.layer_id name description db.layers c.single)
            ((λ e. refl), tt),
      )
