-- ===== src/Fs/Operations/Content.antt =====
-- `write_file` and `read_file`: what a file holds after a write.
use tarbox.Base.{
  ℕ, ◌≡◌, refl, subst, ap, ◌∙◌, Bytes, true, false, Option, none, some, err, bytes, [], length,
  is_some, ok, if◌then◌else◌,
}
use tarbox.Path.{storage}
use tarbox.Storage.Models.{InodeId, Inode, Layer, Db}
use tarbox.Storage.Inodes.{get_inode, replace_row}
use tarbox.Storage.Inodes.Update.{update_inode-patched, patched}
use tarbox.Storage.Layers.{get_layer, get_current}
use tarbox.Layer.Lines.Glue.{to_lf}
use tarbox.Layer.Lines.Laws.{blank}
use tarbox.Layer.Detection.{TextEncoding, LineEnding, text, detect, default_config}
use tarbox.Layer.Cow.{Outside, cow_write_file, write_text_file, text_result}
use tarbox.Layer.Cow.Hashed.{IsLawful, IsHashed}
use tarbox.Layer.Cow.Text.{HasNoText, write_text_file-read, has_layer}
use tarbox.Layer.Manager.{get_current_layer, record_change}
use tarbox.Layer.Manager.Checkpoints.{current_row, layer_known}
use tarbox.Fs.Operations.{
  message, FileSystem, resolve_path, cow_handler, read_file, read_file_internal, old_data,
  after_write, write_inode, write_file, is_file,
}
use tarbox.Storage.Layers.Counted.{LayersKept, same-LayersKept, trans-LayersKept}
use tarbox.Fs.Operations.Rewritten.{IsSingle, IsRewritten, resolved_again}
use tarbox.Fs.Operations.Kept.{
  read_text_file-same, record_change-ok, record_change-LayersKept, update-GivesSome,
}

module _ (o : Outside) (law : IsLawful o) (fs : FileSystem) (i : InodeId) (path d : Bytes) (db : Db)
    (current : Layer) (row : Inode) where
  -- The state in which a text can be written: the file system is on the tenant's current layer,
  -- the inode is there, the lines stored are sound, and a file that reads as
  -- empty has no text in the layer yet.
  pub record IsReady : Type 0 where
    pub on_current : get_current_layer fs.tenant_id db ≡ ok current
    pub same : current.layer_id ≡ fs.current_layer_id
    pub there : get_inode fs.tenant_id i db ≡ some row
    pub hashed : IsHashed o db.next_uuid db.text_blocks
    pub fresh : old_data (read_file_internal fs i db) ≡ none → HasNoText (cow_handler fs) i db

  cow_write_file-text :
      (old : Option Bytes) (e : TextEncoding) (l : LineEnding) (n : ℕ)
      → detect default_config d ≡ text e l n
      → cow_write_file o (cow_handler fs) i d old db
        ≡ write_text_file o (cow_handler fs) i d old e l db
  unfolding cow_write_file
  cow_write_file-text old e l n t = rw t refl

  pub write_inode-read :
      (e : TextEncoding) (l : LineEnding) (n : ℕ)
      → detect default_config d ≡ text e l n
      → IsReady
      → current.is_readonly ≡ false
      → (db' : Db) × (write_inode o fs i path d db ≡ (ok tt, db'))
        × (read_file_internal fs i db' ≡ (if blank (o.lossy d) then [] else to_lf (o.lossy d)))
        × IsRewritten fs.tenant_id i row db db'
  unfolding write_inode read_file_internal
  write_inode-read e l n t w editable =
      let old = old_data (read_file_internal fs i db) in
      let (_, g) = current_row fs.tenant_id db current w.on_current in
      let known : has_layer fs.current_layer_id db ≡ true =
        subst (λ k. has_layer k db ≡ true) w.same
          (layer_known fs.tenant_id current.layer_id db current g) in
      let (db1, r1, read, only1) =
        write_text_file-read o law (cow_handler fs) i d old e l db (ap is_some w.there) known
          w.hashed w.fresh in
      let there1 : get_inode fs.tenant_id i db1 ≡ some row =
        unfold get_inode in (ap (get_inode fs.tenant_id i) only1 ∙ w.there) in
      let current1 : get_current_layer fs.tenant_id db1 ≡ ok current =
        unfold get_current_layer get_current get_layer in
        (ap (get_current_layer fs.tenant_id) only1 ∙ w.on_current) in
      let res = text_result o d old in
      let (db2, r2, only2) =
        record_change-ok fs.tenant_id i path res.change_type (some res.size_delta) res.text_changes
          db1 current current1 editable (ap is_some there1) in
      let there2 : get_inode fs.tenant_id i db2 ≡ some row =
        unfold get_inode in (ap (get_inode fs.tenant_id i) only2 ∙ there1) in
      let u = after_write (length d) db2.clock in
      let r3 =
        update_inode-patched fs.tenant_id i u db2 row (update-GivesSome (length d) db2.clock)
          there2 in
      let db3 : Db = record db2 {
        inodes = replace_row fs.tenant_id i (patched u row) db2.inodes;
      } in
      let still =
        read_text_file-same fs i db1 db3 (ap (λ (x : Db). x.text_blocks) only2)
          (ap (λ (x : Db). x.text_metadata) only2) (ap (λ (x : Db). x.line_map) only2) in
      (
        db3,
        rw (write_inode, cow_write_file-text old e l n t, r1, r2, r3) refl,
        rw (read_file_internal, still, read) refl,
        record {
          update = u;
          inodes_changed =
              ap (replace_row fs.tenant_id i (patched u row))
                (ap (λ (x : Db). x.inodes) only2 ∙ ap (λ (x : Db). x.inodes) only1);
          tenants_kept = ap (λ (x : Db). x.tenants) only2 ∙ ap (λ (x : Db). x.tenants) only1;
          current_kept = ap (λ (x : Db). x.current) only2 ∙ ap (λ (x : Db). x.current) only1;
          layers_kept =
              trans-LayersKept db db1 db3 (same-LayersKept db db1 (ap (λ (x : Db). x.layers) only1))
                (trans-LayersKept db1 db2 db3
                  (subst (λ x. LayersKept db1 x.1) r2
                    (record_change-LayersKept fs.tenant_id i path res.change_type
                      (some res.size_delta) res.text_changes db1))
                  (same-LayersKept db2 db3 refl));
        },
      )

  write_inode_readonly :
      (e : TextEncoding) (l : LineEnding) (n : ℕ)
      → detect default_config d ≡ text e l n
      → IsReady
      → current.is_readonly ≡ true
      → (db' : Db) × (write_inode o fs i path d db
          ≡ (err (storage (bytes "Cannot modify readonly layer")), db'))
        × (read_file_internal fs i db' ≡ (if blank (o.lossy d) then [] else to_lf (o.lossy d)))
  unfolding write_inode read_file_internal message record_change
  write_inode_readonly e l n t w closed =
      let old = old_data (read_file_internal fs i db) in
      let (_, g) = current_row fs.tenant_id db current w.on_current in
      let known : has_layer fs.current_layer_id db ≡ true =
        subst (λ k. has_layer k db ≡ true) w.same
          (layer_known fs.tenant_id current.layer_id db current g) in
      let (db1, r1, read, only1) =
        write_text_file-read o law (cow_handler fs) i d old e l db (ap is_some w.there) known
          w.hashed w.fresh in
      let current1 : get_current_layer fs.tenant_id db1 ≡ ok current =
        unfold get_current_layer get_current get_layer in
        (ap (get_current_layer fs.tenant_id) only1 ∙ w.on_current) in
      (
        db1,
        rw (write_inode, cow_write_file-text old e l n t, r1, record_change, current1, closed) refl,
        rw (read_file_internal, read) refl,
      )

-- A file that a path leads to is read.
pub read_file-found :
    (fs : FileSystem) (path d : Bytes) (db : Db) (r : Inode)
    → resolve_path fs path db ≡ ok r
    → is_file r.inode_type ≡ true
    → read_file_internal fs r.inode_id db ≡ d
    → read_file fs path db ≡ ok d
unfolding read_file
read_file-found fs path d db r s f e = rw (read_file, s, f, e) refl

-- A write to a file that the path resolves to, of data that is detected as text, succeeds if the
-- file system is on the tenant's current layer, that layer is writable, the blocks stored are found
-- by hash and id, no other row has the key of the inode, and a file that reads as empty has no text
-- in the layer. Reading the same path then gives the text with `\r\n` replaced by `\n`, or nothing
-- if the text is a single newline. Of the inodes only that row is updated, the tenants and their
-- current layers are as they were, and every layer stays under its id.
pub write_file-read :
    (o : Outside) (law : IsLawful o) (fs : FileSystem) (path d : Bytes) (db : Db) (current : Layer)
    (row : Inode) (e : TextEncoding) (l : LineEnding) (n : ℕ)
    → resolve_path fs path db ≡ ok row
    → is_file row.inode_type ≡ true
    → detect default_config d ≡ text e l n
    → IsReady o law fs row.inode_id path d db current row
    → IsSingle fs.tenant_id row.inode_id row db.inodes
    → current.is_readonly ≡ false
    → (db' : Db) × (write_file o fs path d db ≡ (ok tt, db'))
      × (read_file fs path db' ≡ ok (if blank (o.lossy d) then [] else to_lf (o.lossy d)))
      × IsRewritten fs.tenant_id row.inode_id row db db'
unfolding write_file
write_file-read o law fs path d db current row e l n s f t w single editable =
    let (db', r, q, re) =
      write_inode-read o law fs row.inode_id path d db current row e l n t w editable in
    let (row', s', same) =
      resolved_again fs row.inode_id row re.update db db' path row single re.inodes_changed s in
    (
      db',
      rw (write_file, s, f) r,
      read_file-found fs path _ db' row' s' (ap is_file same.1 ∙ f)
          (ap (λ i. read_file_internal fs i db') same.0 ∙ q),
      re,
    )

-- In the same state but for a readonly layer, such a write fails and the file nevertheless holds
-- the new text afterwards: the contents are stored before the layer is looked at.
pub write_file_readonly :
    (o : Outside) (law : IsLawful o) (fs : FileSystem) (path d : Bytes) (db : Db) (current : Layer)
    (row : Inode) (e : TextEncoding) (l : LineEnding) (n : ℕ)
    → resolve_path fs path db ≡ ok row
    → is_file row.inode_type ≡ true
    → detect default_config d ≡ text e l n
    → IsReady o law fs row.inode_id path d db current row
    → current.is_readonly ≡ true
    → (db' : Db) × (write_file o fs path d db
        ≡ (err (storage (bytes "Cannot modify readonly layer")), db'))
      × (read_file_internal fs row.inode_id db'
          ≡ (if blank (o.lossy d) then [] else to_lf (o.lossy d)))
unfolding write_file
write_file_readonly o law fs path d db current row e l n s f t w closed =
    let (db', r, q) =
      write_inode_readonly o law fs row.inode_id path d db current row e l n t w closed in
    (db', rw (write_file, s, f) r, q)
