-- ===== src/Storage/Layers/Counted.antt =====
-- The rows of layers when an entry of a layer is added.
use tarbox.Base.{
  ℕ, ◌≡◌, refl, ap, ◌∙◌, true, false, ◌&&◌, some, List, [], ◌∷◌, map, find, Bool-cases,
  Option-cases, inl, inr, ◌==◌, arith, is_some,
}
use mathlib.Core.Option.{some-injective}
use tarbox.Storage.Models.{Layer, CreateLayerEntryInput, Db}
use tarbox.Storage.Inodes.{get_inode}
use tarbox.Storage.Layers.{is_layer, get_layer, count_entry, add_entry, knows_layer, is_entry_at}

-- The row of a layer after an entry of some layer was counted.
pub row_counted :
    (t l k : ℕ) (ls : List Layer) (r : Layer)
    → find (is_layer t l) ls ≡ some r
    → find (is_layer t l) (map (count_entry k) ls) ≡ some (count_entry k r)
row_counted t l k [] r h = cc h
row_counted t l k (x ∷ ls) r h = elim (Bool-cases (is_layer t l x)) [
  | inl e ↦
      let same : x ≡ r = some-injective x r (rw e at h) in
      let test : is_layer t l (count_entry k x) ≡ true = ground arith in
      rw test (ap (λ y. some (count_entry k y)) same)
  | inr e ↦
      let test : is_layer t l (count_entry k x) ≡ false = ground arith in
      rw test (row_counted t l k ls r (rw e at h))
]

pub counted_keeps :
    (k : ℕ) (r : Layer)
    → ((count_entry k r).layer_id ≡ r.layer_id)
      × ((count_entry k r).parent_layer_id ≡ r.parent_layer_id)
counted_keeps k r = elim (Bool-cases (r.layer_id == k)) [
  | inl e ↦ rw e (refl, refl)
  | inr e ↦ rw e (refl, refl)
]

-- Every layer that is there stays, under its id.
abbrev pub LayersKept : Db → Db → Type 0
LayersKept a b =
    (t l : ℕ) (r : Layer)
    → get_layer t l a ≡ some r
    → (s : Layer) × (get_layer t l b ≡ some s) × (s.layer_id ≡ r.layer_id)

pub same-LayersKept : (a b : Db) → b.layers ≡ a.layers → LayersKept a b
unfolding get_layer
same-LayersKept a b e t l r h = (r, ap (find (is_layer t l)) e ∙ h, refl)

pub add_entry-LayersKept : (c : CreateLayerEntryInput) (db : Db) → LayersKept db (add_entry c db).1
unfolding add_entry get_layer
add_entry-LayersKept c db t l r h =
    elim (Option-cases (find (is_entry_at c.layer_id c.path) db.entries)) [
      | inr (e, f) ↦ rw (add_entry, f) (r, h, refl)
      | inl f ↦
          elim (Bool-cases
            (knows_layer c.layer_id db && is_some (get_inode c.tenant_id c.inode_id db))) [
              | inr k ↦ rw (add_entry, f, k) (r, h, refl)
              | inl k ↦
                  rw (add_entry, f, k)
                    (
                      count_entry c.layer_id r,
                      row_counted t l c.layer_id db.layers r h,
                      (counted_keeps c.layer_id r).0,
                    )
            ]
    ]

pub trans-LayersKept : (a b c : Db) → LayersKept a b → LayersKept b c → LayersKept a c
trans-LayersKept a b c h k t l r e =
    let (s, f, p) = h t l r e in let (s', f', p') = k t l s f in (s', f', p' ∙ p)
