-- ===== src/Layer/Manager/Checkpoints.antt =====
-- Checkpoints, and what a change that was recorded does to the view of the files.
use tarbox.Base.{
  ℕ, suc, ◌<◌, ◌≡◌, refl, subst, ap, ◌∙◌, Bytes, bytes_eq, Bool, true, false, not, ◌&&◌, ◌||◌,
  Option, none, some, List, [], ◌∷◌, ◌++◌, map, find, keep, any, All, ok, Option-cases, Bool-cases,
  inl, inr, ◌==◌, eq_refl, find-append, find-append_none, find-holds, arith,
}
use mathlib.Core.Option.{some-injective}
use tarbox.Storage.Models.{TenantId, LayerId, Layer, CreateLayerInput, Db}
use tarbox.Storage.Layers.{
  get_layer, is_layer, create_layer, new_layer, knows_layer, knows_tenant, get_current, set_current,
}
use tarbox.Layer.Manager.{
  get_current_layer, get_future_layers, checkpoint_layer, create_checkpoint,
  create_checkpoint_with_confirm, advance, set_layer_readonly, with_readonly,
}

current_set :
    (t : TenantId) (l : LayerId) (db : Db)
    → knows_layer l db ≡ true
    → knows_tenant t db ≡ true
    → (db' : Db) × (set_current t l db ≡ (ok tt, db'))
      × (get_current t db' ≡ some l)
      × (db' ≡ record db { current = db'.current })
unfolding set_current get_current
current_set t l db a b = (
  record db { current = (t, l) ∷ keep (λ (c : TenantId × LayerId). not (c.0 == t)) db.current },
  rw (a, b) refl,
  rw (eq_refl t) refl,
  refl,
)

any-append {ℓ} :
    {A : Type ℓ} (p : A → Bool) (xs ys : List A) → any p (xs ++ ys) ≡ (any p xs || any p ys)
any-append p [] ys = refl
any-append p (x ∷ xs) ys = ground (arith, any-append p xs ys)

pub any-found {ℓ} :
    {A : Type ℓ} (p q : A → Bool) (xs : List A) (a : A)
    → find p xs ≡ some a
    → ((x : A) → p x ≡ true → q x ≡ true)
    → any q xs ≡ true
any-found p q [] a h f = cc h
any-found p q (x ∷ xs) a h f = ground (arith, any-found p q xs a, f x)

any-readonly :
    (t : TenantId) (l k : LayerId) (ls : List Layer)
    → any (λ (r : Layer). r.layer_id == k) (map (with_readonly true t l) ls)
      ≡ any (λ (r : Layer). r.layer_id == k) ls
any-readonly t l k [] = refl
any-readonly t l k (r ∷ rs) = ground (arith, any-readonly t l k rs)

named-readonly :
    (t : TenantId) (l : LayerId) (n : Bytes) (ls : List Layer)
    → any
        (λ (r : Layer). r.tenant_id == t && bytes_eq r.layer_name n)
        (map (with_readonly true t l) ls)
      ≡ any (λ (r : Layer). r.tenant_id == t && bytes_eq r.layer_name n) ls
named-readonly t l n [] = refl
named-readonly t l n (r ∷ rs) = ground (arith, named-readonly t l n rs)

found_readonly :
    (t : TenantId) (l : LayerId) (ls : List Layer) (r : Layer)
    → find (is_layer t l) ls ≡ some r
    → find (is_layer t l) (map (with_readonly true t l) ls) ≡ some (record r { is_readonly = true })
found_readonly t l [] r h = cc h
found_readonly t l (x ∷ ls) r h = elim (Bool-cases (is_layer t l x)) [
  | inl e ↦
      let same : x ≡ r = some-injective x r (rw e at h) in
      rw (e, e) (ap (λ (y : Layer). some (record y { is_readonly = true })) same)
  | inr e ↦ rw (e, e) (found_readonly t l ls r (rw e at h))
]

-- Layers have ids that were handed out.
abbrev pub KnowsIds : Db → Type 0
KnowsIds db = All (λ (r : Layer). r.layer_id < db.next_uuid) db.layers

abbrev pub has_name : TenantId → Bytes → Db → Bool
has_name t n db = any (λ (r : Layer). r.tenant_id == t && bytes_eq r.layer_name n) db.layers

abbrev sealed : TenantId → LayerId → Db → Db
sealed t l db = record db { layers = map (with_readonly true t l) db.layers }

find-bounded :
    (t : TenantId) (k next : ℕ) (ls : List Layer)
    → All (λ (r : Layer). r.layer_id < next) ls
    → next ≡ k
    → (l : LayerId) → find (is_layer t k) (map (with_readonly true t l) ls) ≡ none
find-bounded t k next [] h e l = refl
find-bounded t k next (r ∷ rs) h e l = ground (arith, find-bounded t k next rs h.1 e l)

module _ (t : TenantId) (name : Bytes) (description : Option Bytes) (db : Db)
    (current : Layer) where
  abbrev next : CreateLayerInput
  next = checkpoint_layer t current.layer_id name description

  abbrev with_next : Db
  with_next = record (sealed t current.layer_id db) {
    layers =
        map (with_readonly true t current.layer_id) db.layers
        ++ new_layer next (sealed t current.layer_id db) ∷ [];
    next_uuid = suc db.next_uuid;
  }

  next_created :
      knows_tenant t db ≡ true
      → knows_layer current.layer_id db ≡ true
      → has_name t name db ≡ false
      → create_layer next (sealed t current.layer_id db)
        ≡ (ok (new_layer next (sealed t current.layer_id db)), with_next)
  unfolding create_layer
  next_created a b c =
      rw
        (
          named-readonly t current.layer_id name db.layers,
          c,
          a,
          any-readonly t current.layer_id current.layer_id db.layers,
          b,
        )
        refl

  next_found :
      KnowsIds db
      → get_layer t db.next_uuid with_next ≡ some (new_layer next (sealed t current.layer_id db))
  unfolding get_layer
  next_found v =
      find-append_none (is_layer t db.next_uuid)
        (map (with_readonly true t current.layer_id) db.layers)
        (new_layer next (sealed t current.layer_id db) ∷ [])
        (find-bounded t db.next_uuid db.next_uuid db.layers v refl current.layer_id)
      ∙ rw (eq_refl t, eq_refl db.next_uuid) refl

  sealed_found :
      get_layer t current.layer_id db ≡ some current
      → get_layer t current.layer_id with_next ≡ some (record current { is_readonly = true })
  unfolding get_layer
  sealed_found h =
      find-append (is_layer t current.layer_id)
        (map (with_readonly true t current.layer_id) db.layers)
        (new_layer next (sealed t current.layer_id db) ∷ []) (record current { is_readonly = true })
        (found_readonly t current.layer_id db.layers current h)

  next_known : knows_layer db.next_uuid with_next ≡ true
  next_known =
      rw
        (
          any-append (λ (r : Layer). r.layer_id == db.next_uuid)
              (map (with_readonly true t current.layer_id) db.layers)
              (new_layer next (sealed t current.layer_id db) ∷ []),
          eq_refl db.next_uuid,
        )
        (ground arith)

id_of_layer :
    (t : TenantId) (l : LayerId) (db : Db) (r : Layer) → get_layer t l db ≡ some r → l ≡ r.layer_id
unfolding get_layer
id_of_layer t l db r h = let k = find-holds (is_layer t l) db.layers r h in ground arith

pub current_row :
    (t : TenantId) (db : Db) (r : Layer)
    → get_current_layer t db ≡ ok r
    → (get_current t db ≡ some r.layer_id) × (get_layer t r.layer_id db ≡ some r)
unfolding get_current_layer
current_row t db r h = elim (Option-cases (get_current t db)) [
  | inl e ↦ cc (rw (get_current_layer, e) at h)
  | inr (l, e) ↦ elim (Option-cases (get_layer t l db)) [
    | inl g ↦ cc (rw (get_current_layer, e, g) at h)
    | inr (s, g) ↦
        let same : s ≡ r = cc (rw (get_current_layer, e, g) at h) in
        let row = subst (λ x. get_layer t l db ≡ some x) same g in
        let here = id_of_layer t l db r row in
        (e ∙ ap some here, subst (λ k. get_layer t k db ≡ some r) here row)
  ]
]

pub layer_known :
    (t : TenantId) (l : LayerId) (db : Db) (r : Layer)
    → get_layer t l db ≡ some r
    → knows_layer l db ≡ true
unfolding get_layer
layer_known t l db r h =
    any-found (is_layer t l) (λ (r : Layer). r.layer_id == l) db.layers r h (λ x e. ground arith)

pub current_of_row :
    (t : TenantId) (l : LayerId) (db : Db) (r : Layer)
    → get_current t db ≡ some l
    → get_layer t l db ≡ some r
    → get_current_layer t db ≡ ok r
unfolding get_current_layer
current_of_row t l db r e g = rw (get_current_layer, e, g) refl

same_layer :
    (t : TenantId) (l : LayerId) (a b : Db)
    → b ≡ record a { current = b.current }
    → get_layer t l b ≡ get_layer t l a
unfolding get_layer
same_layer t l a b p = ap (get_layer t l) p

-- With a tenant and a current layer that are there, no later layers, an unused name and ids that
-- were handed out, a checkpoint succeeds: the tenant's current layer
-- becomes a new, writable child of the layer that was current, and that layer becomes readonly and
-- keeps everything else.
pub create_checkpoint-advances :
    (t : TenantId) (name : Bytes) (description : Option Bytes) (db : Db) (current : Layer)
    → KnowsIds db
    → knows_tenant t db ≡ true
    → has_name t name db ≡ false
    → get_current_layer t db ≡ ok current
    → get_future_layers t current.layer_id db ≡ []
    → (new : Layer) × (db' : Db) × (create_checkpoint t name description db ≡ (ok new, db'))
      × (get_current_layer t db' ≡ ok new)
      × (new.parent_layer_id ≡ some current.layer_id)
      × (new.is_readonly ≡ false)
      × (get_layer t current.layer_id db' ≡ some (record current { is_readonly = true }))
unfolding create_checkpoint create_checkpoint_with_confirm advance set_layer_readonly
create_checkpoint-advances t name description db current v a b c f =
    let (e, g) = current_row t db current c in
    let known = layer_known t current.layer_id db current g in
    let created = next_created t name description db current a known b in
    let (db', r, cur, only) =
      current_set t db.next_uuid (with_next t name description db current)
        (next_known t name description db current) a in
    let new = new_layer (next t name description db current) (sealed t current.layer_id db) in
    (
      new,
      db',
      rw (create_checkpoint_with_confirm, c, f) (rw (created, r) refl),
      current_of_row t db.next_uuid db' new cur (
          same_layer t db.next_uuid (with_next t name description db current) db' only
          ∙ next_found t name description db current v),
      refl,
      refl,
      same_layer t current.layer_id (with_next t name description db current) db' only
          ∙ sealed_found t name description db current g,
    )
