-- ===== src/Fs/Operations/Binary.antt =====
-- `write_file` and `read_file`: what a file holds after binary data was written over it.
use tarbox.Base.{
  ◌≡◌, refl, subst, ap, ◌∙◌, Bytes, true, false, not, Option, some, ok, is_some, length, keep,
}
use tarbox.Storage.Models.{InodeId, Inode, Layer, Db}
use tarbox.Storage.Inodes.{get_inode, replace_row}
use tarbox.Storage.Inodes.Update.{update_inode-patched, patched}
use tarbox.Storage.Blocks.{is_block_of, list_blocks, concat_blocks, order_by_index}
use tarbox.Storage.Layers.{get_layer, get_current}
use tarbox.Storage.Layers.Counted.{LayersKept, same-LayersKept, trans-LayersKept}
use tarbox.Layer.Detection.{binary, detect, default_config}
use tarbox.Layer.Cow.{Outside, cow_write_file, write_binary_file, read_text_file, old_length}
use tarbox.Layer.Cow.Binary.{write_binary_file-read}
use tarbox.Layer.Manager.{get_current_layer}
use tarbox.Fs.Operations.{
  FileSystem, resolve_path, cow_handler, text_or_blocks, read_file, read_file_internal, old_data,
  after_write, write_inode, write_file, is_file,
}
use tarbox.Fs.Operations.Rewritten.{IsSingle, IsRewritten, resolved_again}
use tarbox.Fs.Operations.Content.{read_file-found}
use tarbox.Fs.Operations.Kept.{
  read_text_file-same, record_change-ok, record_change-LayersKept, update-GivesSome,
}

module _ (o : Outside) (fs : FileSystem) (i : InodeId) (path d : Bytes) (db : Db) (current : Layer)
    (row : Inode) where
  cow_write_file-binary :
      (old : Option Bytes)
      → detect default_config d ≡ binary
      → cow_write_file o (cow_handler fs) i d old db
        ≡ write_binary_file (cow_handler fs) i d (not (is_some old)) (old_length old) db
  unfolding cow_write_file
  cow_write_file-binary old t = rw t refl

  list_blocks-same :
      (a b : Db) → b.blocks ≡ a.blocks → list_blocks fs.tenant_id i b ≡ list_blocks fs.tenant_id i a
  unfolding list_blocks
  list_blocks-same a b h = ap (λ rs. order_by_index (keep (is_block_of fs.tenant_id i) rs)) h

  write_inode-binary :
      detect default_config d ≡ binary
      → get_current_layer fs.tenant_id db ≡ ok current
      → get_inode fs.tenant_id i db ≡ some row
      → current.is_readonly ≡ false
      → (db' : Db) × (write_inode o fs i path d db ≡ (ok tt, db'))
        × (read_file_internal fs i db'
            ≡ text_or_blocks (read_text_file (cow_handler fs) i fs.current_layer_id db) d)
        × IsRewritten fs.tenant_id i row db db'
  unfolding write_inode read_file_internal
  write_inode-binary t c g editable =
      let old = old_data (read_file_internal fs i db) in
      let (res, db1, r1, blocks, only1) =
        write_binary_file-read (cow_handler fs) i d (not (is_some old)) (old_length old) db
          (ap is_some g) in
      let there1 : get_inode fs.tenant_id i db1 ≡ some row =
        unfold get_inode in (ap (get_inode fs.tenant_id i) only1 ∙ g) in
      let current1 : get_current_layer fs.tenant_id db1 ≡ ok current =
        unfold get_current_layer get_current get_layer in
        (ap (get_current_layer fs.tenant_id) only1 ∙ c) in
      let (db2, r2, only2) =
        record_change-ok fs.tenant_id i path res.change_type (some res.size_delta) res.text_changes
          db1 current current1 editable (ap is_some there1) in
      let there2 : get_inode fs.tenant_id i db2 ≡ some row =
        unfold get_inode in (ap (get_inode fs.tenant_id i) only2 ∙ there1) in
      let u = after_write (length d) db2.clock in
      let r3 =
        update_inode-patched fs.tenant_id i u db2 row (update-GivesSome (length d) db2.clock)
          there2 in
      let db3 : Db = record db2 {
        inodes = replace_row fs.tenant_id i (patched u row) db2.inodes;
      } in
      let text_kept =
        read_text_file-same fs i db db3
          (ap (λ (x : Db). x.text_blocks) only2 ∙ ap (λ (x : Db). x.text_blocks) only1)
          (ap (λ (x : Db). x.text_metadata) only2 ∙ ap (λ (x : Db). x.text_metadata) only1)
          (ap (λ (x : Db). x.line_map) only2 ∙ ap (λ (x : Db). x.line_map) only1) in
      let blocks_kept : concat_blocks (list_blocks fs.tenant_id i db3) ≡ d =
        ap concat_blocks (list_blocks-same db1 db3 (ap (λ (x : Db). x.blocks) only2)) ∙ blocks in
      (
        db3,
        rw (write_inode, cow_write_file-binary old t, r1, r2, r3) refl,
        rw (read_file_internal, text_kept, blocks_kept) refl,
        record {
          update = u;
          inodes_changed =
              ap (replace_row fs.tenant_id i (patched u row))
                (ap (λ (x : Db). x.inodes) only2 ∙ ap (λ (x : Db). x.inodes) only1);
          tenants_kept = ap (λ (x : Db). x.tenants) only2 ∙ ap (λ (x : Db). x.tenants) only1;
          current_kept = ap (λ (x : Db). x.current) only2 ∙ ap (λ (x : Db). x.current) only1;
          layers_kept =
              trans-LayersKept db db1 db3 (same-LayersKept db db1 (ap (λ (x : Db). x.layers) only1))
                (trans-LayersKept db1 db2 db3
                  (subst (λ x. LayersKept db1 x.1) r2
                    (record_change-LayersKept fs.tenant_id i path res.change_type
                      (some res.size_delta) res.text_changes db1))
                  (same-LayersKept db2 db3 refl));
        },
      )

-- A write to a file that the path resolves to, of data that is detected as binary, succeeds if the
-- current layer of the tenant is writable and no other row has the key of the inode. Reading the same
-- path then gives the data, unless the inode had a text in the layer of the file system: then it
-- gives that text, which was written over, as before. Of the inodes only that row is updated, the
-- tenants and their current layers are as they were, and every layer stays under its id.
pub write_file-binary :
    (o : Outside) (fs : FileSystem) (path d : Bytes) (db : Db) (current : Layer) (row : Inode)
    → resolve_path fs path db ≡ ok row
    → is_file row.inode_type ≡ true
    → detect default_config d ≡ binary
    → get_current_layer fs.tenant_id db ≡ ok current
    → get_inode fs.tenant_id row.inode_id db ≡ some row
    → IsSingle fs.tenant_id row.inode_id row db.inodes
    → current.is_readonly ≡ false
    → (db' : Db) × (write_file o fs path d db ≡ (ok tt, db'))
      × (read_file fs path db'
          ≡ ok (
              text_or_blocks
                (read_text_file (cow_handler fs) row.inode_id fs.current_layer_id db)
                d))
      × IsRewritten fs.tenant_id row.inode_id row db db'
unfolding write_file
write_file-binary o fs path d db current row s f t c g single editable =
    let (db', r, q, re) =
      write_inode-binary o fs row.inode_id path d db current row t c g editable in
    let (row', s', same) =
      resolved_again fs row.inode_id row re.update db db' path row single re.inodes_changed s in
    (
      db',
      rw (write_file, s, f) r,
      read_file-found fs path _ db' row' s' (ap is_file same.1 ∙ f)
          (ap (λ i. read_file_internal fs i db') same.0 ∙ q),
      re,
    )
