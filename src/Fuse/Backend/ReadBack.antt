-- ===== src/Fuse/Backend/ReadBack.antt =====
-- src/fuse/backend.rs: what is written through the backend is read back through it.
use tarbox.Base.{
  ℕ, ◌≡◌, refl, sym, subst, ap, ◌∙◌, Bytes, true, false, some, [], length, if◌then◌else◌, ok,
}
use tarbox.Storage.Models.{TenantId, Tenant, Inode, Layer, Db}
use tarbox.Storage.Tenants.{get_tenant}
use tarbox.Storage.Layers.{get_layer, get_current}
use tarbox.Layer.Lines.Glue.{to_lf}
use tarbox.Layer.Lines.Laws.{blank}
use tarbox.Layer.Detection.{TextEncoding, LineEnding, text, detect, default_config}
use tarbox.Layer.Cow.Hashed.{IsLawful}
use tarbox.Layer.Hooks.{is_hook_path}
use tarbox.Layer.Manager.{get_current_layer, initialize_base_layer}
use tarbox.Layer.Manager.Checkpoints.{current_row, current_of_row}
use tarbox.Fs.Operations.{FileSystem, new_file_system, resolve_path, is_file}
use tarbox.Fs.Operations.Content.{IsReady, write_file-read}
use tarbox.Fs.Operations.Rewritten.{IsSingle, IsRewritten}
use tarbox.Fuse.Backend.{Outside, slice, u32}
use tarbox.Fuse.Backend.Calls.{read_file, write_file}

-- The file system that each call of the backend opens.
abbrev pub opened : Tenant → Layer → TenantId → FileSystem
opened tenant current t = record {
  tenant_id = t;
  root_inode_id = tenant.root_inode_id;
  current_layer_id = current.layer_id;
}

opens :
    (t : TenantId) (db : Db) (tenant : Tenant) (current : Layer)
    → get_tenant t db ≡ some tenant
    → get_current_layer t db ≡ ok current
    → new_file_system t db ≡ (ok (opened tenant current t), db)
unfolding new_file_system initialize_base_layer
opens t db tenant current a c = rw (new_file_system, a, initialize_base_layer, c, c) refl

-- It is opened again, as the same one, after a write.
reopens :
    (t i : ℕ) (row : Inode) (db db' : Db) (tenant : Tenant) (current : Layer)
    → get_tenant t db ≡ some tenant
    → get_current_layer t db ≡ ok current
    → IsRewritten t i row db db'
    → new_file_system t db' ≡ (ok (opened tenant current t), db')
unfolding get_tenant get_current
reopens t i row db db' tenant current a c w =
    let (e, g) = current_row t db current c in
    let (s, f, same) = w.layers_kept t current.layer_id current g in
    let tenant' : get_tenant t db' ≡ some tenant = rw w.tenants_kept a in
    let cur : get_current t db' ≡ some current.layer_id = rw w.current_kept e in
    let at : get_current t db' ≡ some s.layer_id = rw same cur in
    let row' : get_layer t s.layer_id db' ≡ some s =
      subst (λ k. get_layer t k db' ≡ some s) (sym same) f in
    opens t db' tenant s tenant' (current_of_row t s.layer_id db' s at row')
    ∙ ap (λ (l : ℕ). (ok (record (opened tenant current t) { current_layer_id = l }), db')) same

module _ (o : Outside) (law : IsLawful o.cow) (t : TenantId) (path d : Bytes) (db : Db)
    (tenant : Tenant) (current : Layer) (row : Inode) (e : TextEncoding) (l : LineEnding)
    (n : ℕ) where
  abbrev back : Bytes
  back = if blank (o.cow.lossy d) then [] else to_lf (o.cow.lossy d)

  -- A write from the start of a file that the path leads to, of data that is detected as text,
  -- succeeds and reports its length as a u32. Every read of that path afterwards gives the part that
  -- was asked for of the text, with `\r\n` replaced by `\n`, or of nothing if the text is a single
  -- newline. The path is no virtual one, the tenant is there, its current layer is writable, and the
  -- file can be written as `write_file-read` of the file system says.
  pub write_file-read_back :
      is_hook_path path ≡ false
      → get_tenant t db ≡ some tenant
      → resolve_path (opened tenant current t) path db ≡ ok row
      → is_file row.inode_type ≡ true
      → detect default_config d ≡ text e l n
      → IsReady o.cow law (opened tenant current t) row.inode_id path d db current row
      → IsSingle t row.inode_id row db.inodes
      → current.is_readonly ≡ false
      → (db' : Db) × (write_file o t path 0 d db ≡ (ok (u32 (length d)), db'))
        × ((offset size : ℕ)
            → read_file o t path offset size db' ≡ (ok (slice offset size back), db'))
  unfolding write_file read_file
  write_file-read_back h a s f x w single editable =
      let (db', r, q, re) =
        write_file-read o.cow law (opened tenant current t) path d db current row e l n s f x w
          single editable in
      (
        db',
        rw (write_file, h, opens t db tenant current a w.on_current, r) refl,
        λ offset size.
            rw (read_file, h, reopens t row.inode_id row db db' tenant current a w.on_current re, q)
              refl,
      )
