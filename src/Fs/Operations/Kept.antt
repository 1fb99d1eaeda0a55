-- ===== src/Fs/Operations/Kept.antt =====
-- What reading a text depends on, and that recording a change leaves it alone.
use tarbox.Base.{
  ℕ, ℤ, ◌≡◌, refl, sym, ap, ◌∙◌, Bytes, true, false, Option, none, some, List, [], ◌∷◌, find, keep,
  is_some, ok, err, Option-cases, Result-cases, Bool-cases, inl, inr, ◌==◌,
}
use tarbox.Path.{FsResult}
use tarbox.Storage.Models.{
  TenantId, InodeId, Layer, LayerEntry, ChangeType, TextChanges, TextBlock, CreateLayerEntryInput,
  TextLineMap, Db,
}
use tarbox.Storage.Inodes.{get_inode}
use tarbox.Storage.Inodes.Update.{GivesSome}
use tarbox.Storage.Texts.{
  get_block, get_metadata, get_line_mappings, is_metadata_of, is_mapping_of, order_by_line,
}
use tarbox.Storage.Layers.{knows_layer, add_entry, is_entry_at, new_entry, revised}
use tarbox.Storage.Layers.Counted.{LayersKept, same-LayersKept, add_entry-LayersKept}
use tarbox.Layer.Cow.{mapped_lines, read_text_file}
use tarbox.Layer.Manager.{get_current_layer, record_change, then_run}
use tarbox.Layer.Manager.Checkpoints.{current_row, layer_known}
use tarbox.Fs.Operations.{FileSystem, cow_handler, after_write}

get_block-same : (k : ℕ) (a b : Db) → b.text_blocks ≡ a.text_blocks → get_block k b ≡ get_block k a
unfolding get_block
get_block-same k a b h = ap (find (λ (r : TextBlock). r.block_id == k)) h

mapped_lines-cons :
    (m : TextLineMap) (ms : List TextLineMap) (db : Db) (o : Option TextBlock)
    → get_block m.block_id db ≡ o
    → mapped_lines (m ∷ ms) db
      ≡ elim o [ none ↦ mapped_lines ms db | some b ↦ b.content ∷ mapped_lines ms db ]
unfolding mapped_lines
mapped_lines-cons m ms db o h = rw (mapped_lines, h) refl

mapped_lines-same :
    (ms : List TextLineMap) (a b : Db)
    → b.text_blocks ≡ a.text_blocks
    → mapped_lines ms b ≡ mapped_lines ms a
unfolding mapped_lines
mapped_lines-same [] a b h = refl
mapped_lines-same (m ∷ ms) a b h =
    let o = get_block m.block_id a in
    mapped_lines-cons m ms b o (get_block-same m.block_id a b h)
    ∙ ap (λ rest. elim o [ none ↦ rest | some b ↦ b.content ∷ rest ]) (mapped_lines-same ms a b h)
    ∙ sym (mapped_lines-cons m ms a o refl)

-- Reading a text depends on the text tables alone.
module _ (fs : FileSystem) (i : InodeId) (a b : Db) (p : b.text_blocks ≡ a.text_blocks)
    (q : b.text_metadata ≡ a.text_metadata) (r : b.line_map ≡ a.line_map) where
  same_metadata :
      get_metadata fs.tenant_id i fs.current_layer_id b
      ≡ get_metadata fs.tenant_id i fs.current_layer_id a
  unfolding get_metadata
  same_metadata = ap (find (is_metadata_of fs.tenant_id i fs.current_layer_id)) q

  same_mappings :
      get_line_mappings fs.tenant_id i fs.current_layer_id b
      ≡ get_line_mappings fs.tenant_id i fs.current_layer_id a
  unfolding get_line_mappings
  same_mappings =
      ap (λ ms. order_by_line (keep (is_mapping_of fs.tenant_id i fs.current_layer_id) ms)) r

  pub read_text_file-same :
      read_text_file (cow_handler fs) i fs.current_layer_id b
      ≡ read_text_file (cow_handler fs) i fs.current_layer_id a
  unfolding read_text_file
  read_text_file-same = elim (Option-cases (get_metadata fs.tenant_id i fs.current_layer_id a)) [
    | inl e ↦ rw (read_text_file, e, same_metadata ∙ e) refl
    | inr (m, e) ↦
        rw
          (
            read_text_file,
            e,
            same_metadata ∙ e,
            same_mappings,
            mapped_lines-same (get_line_mappings fs.tenant_id i fs.current_layer_id a) a b p,
          )
          refl
  ]

add_entry-ok :
    (c : CreateLayerEntryInput) (db : Db)
    → knows_layer c.layer_id db ≡ true
    → is_some (get_inode c.tenant_id c.inode_id db) ≡ true
    → (e : LayerEntry) × (db' : Db) × (add_entry c db ≡ (ok e, db'))
      × (db' ≡ record db { entries = db'.entries; layers = db'.layers; next_uuid = db'.next_uuid })
unfolding add_entry
add_entry-ok c db a b = elim (Option-cases (find (is_entry_at c.layer_id c.path) db.entries)) [
  | inl f ↦ (
    new_entry c db,
    (add_entry c db).1,
    rw (add_entry, f, a, b) refl,
    rw (add_entry, f, a, b) refl,
  )
  | inr (e, f) ↦ (revised c e, (add_entry c db).1, rw (add_entry, f) refl, rw (add_entry, f) refl)
]

-- `record_change` in a writable layer, for an inode that is there, succeeds, and changes only
-- entries, the counts of layers and the ids handed out.
pub record_change-ok :
    (t : TenantId) (i : InodeId) (path : Bytes) (change : ChangeType) (delta : Option ℤ)
    (changes : Option TextChanges) (db : Db) (current : Layer)
    → get_current_layer t db ≡ ok current
    → current.is_readonly ≡ false
    → is_some (get_inode t i db) ≡ true
    → (db' : Db) × (record_change t i path change delta changes db ≡ (ok tt, db'))
      × (db' ≡ record db { entries = db'.entries; layers = db'.layers; next_uuid = db'.next_uuid })
unfolding record_change
record_change-ok t i path change delta changes db current c w n =
    let (e, g) = current_row t db current c in
    let (_, db', r, only) =
      add_entry-ok
        (record {
          layer_id = current.layer_id;
          tenant_id = t;
          inode_id = i;
          path = path;
          change_type = change;
          size_delta = delta;
          text_changes = changes;
        })
        db (layer_known t current.layer_id db current g) n in
    (db', rw (record_change, c, w, r) refl, only)

pub update-GivesSome : (size now : ℕ) → GivesSome (after_write size now)
update-GivesSome size now = refl

then_run-keeps :
    (P : Db → Type 0) (r : FsResult LayerEntry × Db)
    → P r.1
    → P (then_run {B = Unit {0}} r (λ _ db'. (ok tt, db'))).1
then_run-keeps P (ok e, db) h = h
then_run-keeps P (err e, db) h = h

-- `record_change` leaves every layer that is there, under its id.
pub record_change-LayersKept :
    (t : TenantId) (i : InodeId) (path : Bytes) (change : ChangeType) (delta : Option ℤ)
    (changes : Option TextChanges) (db : Db)
    → LayersKept db (record_change t i path change delta changes db).1
unfolding record_change
record_change-LayersKept t i path change delta changes db =
    elim (Result-cases (get_current_layer t db)) [
      | inr (e, k) ↦ rw (record_change, k) (same-LayersKept db db refl)
      | inl (r, k) ↦ elim (Bool-cases r.is_readonly) [
        | inl w ↦ rw (record_change, k, w) (same-LayersKept db db refl)
        | inr w ↦
            rw (record_change, k, w) (then_run-keeps (LayersKept db) _ (add_entry-LayersKept _ db))
      ]
    ]
