-- ===== src/Csi/Snapshots/Follows.antt =====
-- src/csi/snapshot.rs: a snapshot of a volume is a child of the layer that is still written to.
use tarbox.Base.{
  ℕ, ℤ, suc, ◌≡◌, refl, sym, ap, subst, ◌∙◌, Bytes, bytes_eq, true, false, ◌&&◌, Option, none, some,
  List, [], ◌∷◌, ◌++◌, find, any, is_some, ok, ◌==◌, eq_refl, find-append, find-append_none, arith,
}
use tarbox.Storage.Models.{
  TenantId, InodeId, LayerId, Layer, LayerEntry, ChangeType, TextChanges, Db,
}
use tarbox.Storage.Inodes.{get_inode}
use tarbox.Storage.Layers.{
  get_layer, is_layer, knows_layer, get_layer_chain, chain_from, create_layer, new_layer,
  is_entry_at, count_entry, list_entries, get_current,
}
use tarbox.Storage.Layers.Counted.{row_counted, counted_keeps}
use tarbox.Storage.Layers.Created.{IsCreated, create-IsCreated}
use tarbox.Layer.Manager.{get_current_layer, record_change}
use tarbox.Layer.Manager.Checkpoints.{current_row, layer_known, current_of_row}
use tarbox.Layer.UnionView.{from_layer, state_of, lookup_in, lookup_file}
use tarbox.Layer.UnionView.Lookup.{
  with_entry, entry_added, entry_found, head_of_chain, found_counted, lookup_head, find-keep,
}
use tarbox.Csi.Snapshots.{create_volume_snapshot, snapshot_input}

none_fresh :
    (t l : ℕ) (ls : List Layer)
    → any (λ (r : Layer). r.layer_id == l) ls ≡ false
    → find (is_layer t l) ls ≡ none
none_fresh t l [] h = refl
none_fresh t l (x ∷ ls) h = ground (arith, none_fresh t l ls)

no_entries :
    (t l : ℕ) (path : Bytes) (es : List LayerEntry)
    → any (λ (e : LayerEntry). e.layer_id == l) es ≡ false
    → find (λ e. (e.tenant_id == t && e.layer_id == l) && bytes_eq e.path path) es ≡ none
no_entries t l path [] h = refl
no_entries t l path (x ∷ es) h = ground (arith, no_entries t l path es)

-- The tables after a snapshot that succeeds.
module _ (t : TenantId) (name : Bytes) (db : Db) (current : Layer) where
  abbrev pub taken_db : Db
  taken_db = record db {
    layers = db.layers ++ new_layer (snapshot_input t current.layer_id name) db ∷ [];
    next_uuid = suc db.next_uuid;
  }

  abbrev pub snapshot_layer : Layer
  snapshot_layer = new_layer (snapshot_input t current.layer_id name) db

  snapshot_row :
      knows_layer db.next_uuid db ≡ false → get_layer t db.next_uuid taken_db ≡ some snapshot_layer
  unfolding get_layer
  snapshot_row f =
      find-append_none (is_layer t db.next_uuid) db.layers (snapshot_layer ∷ [])
        (none_fresh t db.next_uuid db.layers f)
      ∙ rw (eq_refl t, eq_refl db.next_uuid) refl

  still_current : get_current_layer t db ≡ ok current → get_current_layer t taken_db ≡ ok current
  unfolding get_layer get_current
  still_current c =
      let (e, g) = current_row t db current c in
      current_of_row t current.layer_id taken_db current e
        (find-append (is_layer t current.layer_id) db.layers (snapshot_layer ∷ []) current g)

not_fresh :
    (t l u : ℕ) (ls : List Layer) (r : Layer)
    → find (is_layer t l) ls ≡ some r
    → any (λ (r : Layer). r.layer_id == u) ls ≡ false
    → (l == u) ≡ false
not_fresh t l u [] r h a = cc h
not_fresh t l u (x ∷ ls) r h a = ground (arith, not_fresh t l u ls r)

-- A layer without an entry for the path shows what its parent shows.
below_head :
    (t : TenantId) (path : Bytes) (r : Layer) (rest : List Layer) (l : LayerId) (db : Db)
    → r.layer_id ≡ l
    → find (λ e. bytes_eq e.path path) (list_entries t l db) ≡ none
    → lookup_in t path (r ∷ rest) db ≡ lookup_in t path rest db
below_head t path r rest l db id h =
    let h' =
      subst (λ k. find (λ e. bytes_eq e.path path) (list_entries t k db) ≡ none) (sym id) h in
    rw (lookup_in, h') refl

chain_on :
    (t l p n : ℕ) (db : Db) (r : Layer)
    → get_layer t l db ≡ some r
    → r.parent_layer_id ≡ some p
    → chain_from (suc n) t l db ≡ r ∷ chain_from n t p db
unfolding chain_from
chain_on t l p n db r e q = rw (chain_from, e, q) refl

module _ (t : TenantId) (i : InodeId) (path : Bytes) (change : ChangeType) (delta : Option ℤ)
    (changes : Option TextChanges) (name : Bytes) (db : Db) (current : Layer) where
  abbrev changed_db : Db
  changed_db = with_entry t i path change delta changes (taken_db t name db current) current

  -- The current layer is writable and has no entry for the path, the inode is there, and the next
  -- id is that of no layer and of no entry's layer.
  pub record IsWritable : Type 0 where
    pub is_current : get_current_layer t db ≡ ok current
    pub writable : current.is_readonly ≡ false
    pub inode_there : is_some (get_inode t i db) ≡ true
    pub no_entry : find (is_entry_at current.layer_id path) db.entries ≡ none
    pub layer_fresh : knows_layer db.next_uuid db ≡ false
    pub entries_fresh : any (λ (e : LayerEntry). e.layer_id == db.next_uuid) db.entries ≡ false

  module _ (h : IsWritable) where
    recorded :
        record_change t i path change delta changes (taken_db t name db current)
        ≡ (ok tt, changed_db)
    unfolding record_change get_inode
    recorded =
        let c = still_current t name db current h.is_current in
        let (e, g) = current_row t (taken_db t name db current) current c in
        rw
          (
            record_change,
            c,
            h.writable,
            entry_added t i path change delta changes (taken_db t name db current) current
                (layer_known t current.layer_id (taken_db t name db current) current g)
                h.inode_there h.no_entry,
          )
          refl

    none_in_snapshot :
        find (λ e. bytes_eq e.path path) (list_entries t db.next_uuid changed_db) ≡ none
    unfolding list_entries get_layer
    none_in_snapshot =
        let other =
          not_fresh t current.layer_id db.next_uuid db.layers current
            (current_row t db current h.is_current).1 h.layer_fresh in
        find-keep (λ (e : LayerEntry). e.tenant_id == t && e.layer_id == db.next_uuid)
          (λ e. bytes_eq e.path path) changed_db.entries
        ∙ find-append_none _ db.entries _
            (no_entries t db.next_uuid path db.entries h.entries_fresh)
        ∙ rw (eq_refl t, other) refl

    shown :
        lookup_file (from_layer t db.next_uuid changed_db) path changed_db
        ≡ state_of current.layer_id change i
    unfolding lookup_file from_layer get_layer_chain get_layer
    shown =
        let r = count_entry current.layer_id (snapshot_layer t name db current) in
        let row : get_layer t db.next_uuid changed_db ≡ some r =
          row_counted t db.next_uuid current.layer_id (taken_db t name db current).layers
            (snapshot_layer t name db current) (snapshot_row t name db current h.layer_fresh) in
        let k = counted_keeps current.layer_id (snapshot_layer t name db current) in
        let here : is_some (get_layer t current.layer_id changed_db) ≡ true =
          found_counted t current.layer_id (taken_db t name db current).layers
          ∙ ap is_some
              (current_row t (taken_db t name db current) current
                (still_current t name db current h.is_current)).1 in
        let (r', below, chain, id) =
          head_of_chain t current.layer_id db.next_uuid changed_db here in
        rw (chain_on t db.next_uuid current.layer_id (suc db.next_uuid) changed_db r row k.1, chain)
          (below_head t path r (r' ∷ below) db.next_uuid changed_db k.0 none_in_snapshot
            ∙ lookup_head t path r' below current.layer_id changed_db _ id (
                entry_found t i path change delta changes (taken_db t name db current) current
                  h.no_entry))

    taken :
        (s : Layer) (db1 : Db)
        → create_volume_snapshot t name db ≡ (ok s, db1)
        → (s ≡ snapshot_layer t name db current) × (db1 ≡ taken_db t name db current)
    unfolding create_volume_snapshot
    taken s db1 e =
        let (cur, _) = current_row t db current h.is_current in
        let made : create_layer (snapshot_input t current.layer_id name) db ≡ (ok s, db1) =
          rw (create_volume_snapshot, cur) at e in
        subst (IsCreated db (snapshot_input t current.layer_id name)) made
          (create-IsCreated db (snapshot_input t current.layer_id name))

  -- A change that is recorded after a snapshot was taken, at a path without an entry in the current
  -- layer, is recorded in that same layer and shows in the view from the snapshot.
  pub create_volume_snapshot-follows :
      (s : Layer) (db1 : Db)
      → IsWritable
      → create_volume_snapshot t name db ≡ (ok s, db1)
      → (db2 : Db) × (record_change t i path change delta changes db1 ≡ (ok tt, db2))
        × (lookup_file (from_layer t s.layer_id db2) path db2 ≡ state_of current.layer_id change i)
  create_volume_snapshot-follows s db1 h e =
      let (same, tables) = taken h s db1 e in
      (changed_db, rw tables (recorded h), rw same (shown h))
