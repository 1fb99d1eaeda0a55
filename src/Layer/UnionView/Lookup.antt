-- ===== src/Layer/UnionView/Lookup.antt =====
-- The view agrees with the history of a file, and shows a change once it is recorded.
use tarbox.Base.{
  ℕ, ℤ, suc, ◌≡◌, refl, subst, sym, ap, ◌∙◌, Bytes, bytes_eq, bytes_eq_refl, Bool, true, false,
  ◌&&◌, Option, none, some, List, [], ◌∷◌, ◌++◌, map, find, keep, is_some, ok, Option-cases, inl,
  inr, ◌==◌, eq_refl, find-append_none, find-holds, arith,
}
use tarbox.Storage.Models.{
  TenantId, InodeId, LayerId, Layer, LayerEntry, ChangeType, TextChanges, CreateLayerEntryInput, Db,
}
use tarbox.Storage.Inodes.{get_inode}
use tarbox.Storage.Layers.{
  get_layer, is_layer, knows_layer, get_layer_chain, chain_from, add_entry, is_entry_at, new_entry,
  count_entry, list_entries, get_current,
}
use tarbox.Layer.Manager.{get_current_layer, record_change}
use tarbox.Layer.Manager.Checkpoints.{current_row, layer_known}
use tarbox.Layer.UnionView.{
  FileState, not_found, UnionView, from_layer, from_current, state_of, lookup_in, lookup_file,
  FileVersion, versions_in, history_in, get_file_history,
}

-- What the newest version of a file says of it.
abbrev pub newest : List FileVersion → FileState
newest [] = not_found
newest (v ∷ vs) = state_of v.layer_id v.change_type v.inode_id

newest-versions :
    (r : Layer) (path : Bytes) (es : List LayerEntry) (older : List FileVersion) (rest : FileState)
    → newest older ≡ rest
    → newest (versions_in r path es ++ older) ≡ elim (find (λ e. bytes_eq e.path path) es) [
      | some e ↦ state_of r.layer_id e.change_type e.inode_id
      | none ↦ rest
    ]
newest-versions r path [] older rest h = h
newest-versions r path (e ∷ es) older rest h =
    ground (arith, newest-versions r path es older rest h)

newest-history :
    (t : TenantId) (path : Bytes) (rs : List Layer) (db : Db)
    → newest (history_in t path rs db) ≡ lookup_in t path rs db
newest-history t path [] db = refl
newest-history t path (r ∷ rs) db =
    newest-versions r path (list_entries t r.layer_id db) (history_in t path rs db)
      (lookup_in t path rs db) (newest-history t path rs db)

-- The state of a file is that of the first version in its history, and a file without history is
-- not found.
pub lookup_file-history :
    (v : UnionView) (path : Bytes) (db : Db)
    → lookup_file v path db ≡ newest (get_file_history v path db)
unfolding lookup_file get_file_history
lookup_file-history v path db = sym (newest-history v.tenant_id path v.layer_chain db)

pub find-keep {ℓ} :
    {A : Type ℓ} (p q : A → Bool) (xs : List A) → find q (keep p xs) ≡ find (λ x. p x && q x) xs
find-keep p q [] = refl
find-keep p q (x ∷ xs) = ground (arith, find-keep p q xs)

pub find-refined {ℓ} :
    {A : Type ℓ} (p q : A → Bool) (xs : List A)
    → ((x : A) → q x ≡ false → p x ≡ false)
    → find q xs ≡ none
    → find p xs ≡ none
find-refined p q [] f h = refl
find-refined p q (x ∷ xs) f h = ground (arith, find-refined p q xs f, f x)

pub found_counted :
    (t : TenantId) (l : LayerId) (ls : List Layer)
    → is_some (find (is_layer t l) (map (count_entry l) ls)) ≡ is_some (find (is_layer t l) ls)
found_counted t l [] = refl
found_counted t l (x ∷ ls) = ground (arith, found_counted t l ls)

pub head_of_chain :
    (t : TenantId) (l : LayerId) (next : ℕ) (db : Db)
    → is_some (get_layer t l db) ≡ true
    → (r : Layer) × (below : List Layer) × (chain_from (suc next) t l db ≡ r ∷ below)
      × (r.layer_id ≡ l)
unfolding chain_from
head_of_chain t l next db h = elim (Option-cases (get_layer t l db)) [
  | inl e ↦ cc (rw e at h)
  | inr (r, e) ↦ (
    r,
    elim r.parent_layer_id [ none ↦ [] | some p ↦ chain_from next t p db ],
    rw (chain_from, e) refl,
    id_of r e,
  )
]
  where
    id_of : (r : Layer) → get_layer t l db ≡ some r → r.layer_id ≡ l
    id_of r e =
        let k = find-holds (is_layer t l) db.layers r (unfold get_layer in e) in ground arith

pub lookup_head :
    (t : TenantId) (path : Bytes) (r : Layer) (below : List Layer) (l : LayerId) (db : Db)
    (e : LayerEntry)
    → r.layer_id ≡ l
    → find (λ e. bytes_eq e.path path) (list_entries t l db) ≡ some e
    → lookup_in t path (r ∷ below) db ≡ state_of l e.change_type e.inode_id
lookup_head t path r below l db e id h =
    let h' =
      subst (λ k. find (λ e. bytes_eq e.path path) (list_entries t k db) ≡ some e) (sym id) h in
    rw (lookup_in, h') (ap (λ k. state_of k e.change_type e.inode_id) id)

module _ (t : TenantId) (i : InodeId) (path : Bytes) (change : ChangeType) (delta : Option ℤ)
    (changes : Option TextChanges) (db : Db) (current : Layer) where
  abbrev pub entry : CreateLayerEntryInput
  entry = record {
    layer_id = current.layer_id;
    tenant_id = t;
    inode_id = i;
    path = path;
    change_type = change;
    size_delta = delta;
    text_changes = changes;
  }

  abbrev pub with_entry : Db
  with_entry = record db {
    entries = db.entries ++ new_entry entry db ∷ [];
    layers = map (count_entry current.layer_id) db.layers;
    next_uuid = suc db.next_uuid;
  }

  pub entry_added :
      knows_layer current.layer_id db ≡ true
      → is_some (get_inode t i db) ≡ true
      → find (is_entry_at current.layer_id path) db.entries ≡ none
      → add_entry entry db ≡ (ok (new_entry entry db), with_entry)
  unfolding add_entry
  entry_added a b c = rw (add_entry, c, a, b) refl

  pub entry_found :
      find (is_entry_at current.layer_id path) db.entries ≡ none
      → find (λ e. bytes_eq e.path path) (list_entries t current.layer_id with_entry)
        ≡ some (new_entry entry db)
  unfolding list_entries
  entry_found c =
      let p = λ (e : LayerEntry). e.tenant_id == t && e.layer_id == current.layer_id in
      let q = λ (e : LayerEntry). bytes_eq e.path path in
      find-keep p q (db.entries ++ new_entry entry db ∷ [])
      ∙ find-append_none (λ e. p e && q e) db.entries (new_entry entry db ∷ [])
          (find-refined (λ e. p e && q e) (is_entry_at current.layer_id path) db.entries
            (λ x h. ground arith) c)
      ∙ rw (eq_refl t, eq_refl current.layer_id, bytes_eq_refl path) refl

  -- A change of an inode that is there at a path that has no entry in the current, writable layer is recorded, and the view
  -- from the current layer then shows the path as that change leaves it: deleted there, or there
  -- with the inode.
  pub record_change-lookup :
      get_current_layer t db ≡ ok current
      → current.is_readonly ≡ false
      → is_some (get_inode t i db) ≡ true
      → find (is_entry_at current.layer_id path) db.entries ≡ none
      → (db' : Db) × (view : UnionView) × (record_change t i path change delta changes db
          ≡ (ok tt, db'))
        × (from_current t db' ≡ some view)
        × (lookup_file view path db' ≡ state_of current.layer_id change i)
  unfolding record_change from_current from_layer get_layer_chain lookup_file
  record_change-lookup c w n f =
      let (e, g) = current_row t db current c in
      let here : is_some (get_layer t current.layer_id with_entry) ≡ true =
        unfold get_layer in (found_counted t current.layer_id db.layers ∙ ap is_some g) in
      let still : get_current t with_entry ≡ some current.layer_id = unfold get_current in e in
      let (r, below, chain, id) = head_of_chain t current.layer_id db.next_uuid with_entry here in
      (
        with_entry,
        from_layer t current.layer_id with_entry,
        rw (record_change, c, w, entry_added (layer_known t current.layer_id db current g) n f)
            refl,
        rw (from_current, still) refl,
        rw chain (
            lookup_head t path r below current.layer_id with_entry (new_entry entry db) id
              (entry_found f)),
      )
