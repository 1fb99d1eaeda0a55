-- ===== src/Layer/Manager/Removal.antt =====
-- `delete_layer`: what the deletion of the current layer of a tenant leaves.
use tarbox.Base.{
  ◌≡◌, refl, Bool, true, false, not, ◌&&◌, none, some, List, [], ◌∷◌, keep, any, is_some, ok, ◌==◌,
  eq_refl, arith,
}
use tarbox.Storage.Models.{TenantId, LayerId, Layer, LayerEntry, Db}
use tarbox.Storage.Inodes.{holds}
use tarbox.Storage.Inodes.Deletion.{find-keep_same, find-keep_gone}
use tarbox.Storage.Layers.{
  get_layer, is_layer, get_current, set_current, knows_layer, knows_tenant, delete_layer_row,
  layer_used,
}
use tarbox.Layer.Manager.{delete_layer, get_future_layers}

-- No current layer but that of the tenant is the layer.
abbrev pub elsewhere : TenantId → LayerId → TenantId × LayerId → Bool
elsewhere t l c = c.1 == l && not (c.0 == t)

left_behind :
    (t : TenantId) (l : LayerId) (cs : List (TenantId × LayerId))
    → any (elsewhere t l) cs ≡ false
    → any (λ (c : TenantId × LayerId). c.1 == l) (keep (λ c. not (c.0 == t)) cs) ≡ false
left_behind t l [] h = refl
left_behind t l (c ∷ cs) h = ground (arith, left_behind t l cs)

abbrev moved : TenantId → LayerId → Db → Db
moved t p db = record db { current = (t, p) ∷ keep (λ c. not (c.0 == t)) db.current }

moved_current :
    (t : TenantId) (p : LayerId) (db : Db)
    → (knows_layer p db && knows_tenant t db) ≡ true
    → set_current t p db ≡ (ok tt, moved t p db)
unfolding set_current
moved_current t p db h = rw (set_current, h) refl

unused :
    (t : TenantId) (l p : LayerId) (db : Db)
    → (p == l) ≡ false
    → any (λ (x : Layer). holds x.parent_layer_id l) db.layers ≡ false
    → any (elsewhere t l) db.current ≡ false
    → layer_used l (moved t p db) ≡ false
unused t l p db n h k = rw (h, n, left_behind t l db.current k) refl

row_deleted :
    (t : TenantId) (l : LayerId) (db : Db)
    → is_some (get_layer t l db) ≡ true
    → layer_used l db ≡ false
    → (db' : Db) × (delete_layer_row t l db ≡ (ok true, db'))
      × (db'.current ≡ db.current)
      × (db'.layers ≡ keep (λ r. not (is_layer t l r)) db.layers)
      × (db'.entries ≡ keep (λ e. not (e.layer_id == l)) db.entries)
unfolding delete_layer_row
row_deleted t l db g u = (
  (delete_layer_row t l db).1,
  rw (delete_layer_row, g, u) refl,
  rw (delete_layer_row, g, u) refl,
  rw (delete_layer_row, g, u) refl,
  rw (delete_layer_row, g, u) refl,
)

any-keep-not {ℓ} :
    {A : Type ℓ} (p : A → Bool) (xs : List A) → any p (keep (λ x. not (p x)) xs) ≡ false
any-keep-not p [] = refl
any-keep-not p (x ∷ xs) = ground (arith, any-keep-not p xs)

-- The current layer of a tenant that has a parent is deleted, if the tenant and the parent
-- are there, no layer is above it and no other tenant is on it: the parent becomes the current layer, the row is gone, no entry of it is left,
-- and every other layer of the tenant is as before.
pub delete_layer_current :
    (t : TenantId) (l p : LayerId) (db : Db) (r : Layer)
    → get_layer t l db ≡ some r
    → r.parent_layer_id ≡ some p
    → get_current t db ≡ some l
    → (p == l) ≡ false
    → get_future_layers t l db ≡ []
    → any (λ (x : Layer). holds x.parent_layer_id l) db.layers ≡ false
    → any (elsewhere t l) db.current ≡ false
    → (knows_layer p db && knows_tenant t db) ≡ true
    → (db' : Db) × (delete_layer t l db ≡ (ok tt, db'))
      × (get_current t db' ≡ some p)
      × (get_layer t l db' ≡ none)
      × (any (λ (e : LayerEntry). e.layer_id == l) db'.entries ≡ false)
      × ((k : LayerId) → (k == l) ≡ false → get_layer t k db' ≡ get_layer t k db)
unfolding delete_layer get_layer get_current
delete_layer_current t l p db r g parent current n future below others known =
    let there : is_some (get_layer t l (moved t p db)) ≡ true = rw g refl in
    let (db', d, c, ls, es) =
      row_deleted t l (moved t p db) there (unused t l p db n below others) in
    (
      db',
      rw (delete_layer, g, future, current, eq_refl l, parent, moved_current t p db known, d) refl,
      rw (c, eq_refl t) refl,
      rw ls (find-keep_gone _ _ db.layers (λ (x : Layer) e. ground arith)),
      rw es (any-keep-not _ db.entries),
      λ k e. rw ls (find-keep_same _ _ db.layers (λ (x : Layer) f. ground arith)),
    )
