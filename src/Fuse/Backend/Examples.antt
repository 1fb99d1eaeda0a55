-- ===== src/Fuse/Backend/Examples.antt =====
-- The interface over the sample database.
use tarbox.Base.{
  ℕ, ◌+◌, arith, ◌≡◌, ◌≢◌, refl, Bytes, bytes, bytes_eq, starts_with, none, some, [], ◌++◌, ok,
  false, if◌then◌else◌, length,
}
use tarbox.Storage.Layers.{get_current, list_layers}
use tarbox.Storage.Models.{Db}
use tarbox.Storage.Tenants.{get_tenant}
use tarbox.Storage.Sample.{sample_db, sample_layer, sample_file}
use tarbox.Layer.Lines.Glue.{to_lf}
use tarbox.Layer.Lines.Laws.{blank}
use tarbox.Layer.Detection.{ascii_encoding, lf_ending}
use tarbox.Layer.Cow.Examples.{marks-IsLawful, two_lines}
use tarbox.Fs.Operations.Examples.{file_resolves, two_lines_are_text, sample-IsReady}
use tarbox.Fuse.Backend.{slice, u32}
use tarbox.Fuse.Backend.ReadBack.{write_file-read_back}
use tarbox.Layer.Hooks.{is_hook_path, layers_new, layers_switch, layers_drop}
use tarbox.Layer.Hooks.Reading.{handle_read, read_layer_tree}
use tarbox.Fuse.Interface.{SetAttr}
use tarbox.Fuse.Adapter.Examples.{outside}
use tarbox.Fuse.Backend.Calls.{
  write_file, create_file, create_dir, delete_file, remove_dir, truncate, chmod, chown, set_attr,
  read_file,
}
use tarbox.Fuse.Backend.Hidden.{FailsOn, hidden_unchanged}
use tarbox.Fuse.Backend.Slices.{read_file-consecutive}

abbrev tree : Bytes
tree = bytes "/.tarbox/layers/tree"

abbrev group_only : SetAttr
group_only = record {
  size = none;
  atime = none;
  mtime = none;
  mode = none;
  uid = none;
  gid = some 8;
}

hidden_unchanged_example :
    ((◌≡◌ {A = ℕ} 0 0 → (tree ≢ layers_new) × (tree ≢ layers_switch) × (tree ≢ layers_drop))
      → FailsOn sample_db (write_file outside 7 tree 0 (bytes "x") sample_db))
    × FailsOn sample_db (create_file outside 7 tree 420 sample_db)
    × FailsOn sample_db (create_dir outside 7 tree 420 sample_db)
    × FailsOn sample_db (delete_file outside 7 tree sample_db)
    × FailsOn sample_db (remove_dir outside 7 tree sample_db)
    × FailsOn sample_db (truncate outside 7 tree 0 sample_db)
    × FailsOn sample_db (chmod outside 7 tree 420 sample_db)
    × FailsOn sample_db (chown outside 7 tree 1 8 sample_db)
    × FailsOn sample_db (set_attr outside 7 tree group_only sample_db)
unfolding is_hook_path starts_with
hidden_unchanged_example =
    hidden_unchanged outside 7 tree refl sample_db 0 420 1 8 0 (bytes "x") group_only

read_file-consecutive_example :
    read_file outside 7 tree 1 (2 + 20) sample_db
    ≡ (ok (bytes "as" ++ bytes "e [current]\n"), sample_db)
unfolding read_file handle_read read_layer_tree get_current list_layers is_hook_path starts_with
    bytes_eq
read_file-consecutive_example =
    read_file-consecutive outside 7 tree sample_db 1 2 20 (bytes "as") (bytes "e [current]\n")
      sample_db sample_db (omega arith) refl refl

no_hook : is_hook_path (bytes "/d/a") ≡ false
unfolding is_hook_path starts_with bytes_eq
no_hook = refl

sample_tenant :
    get_tenant 7 sample_db
    ≡ some (record { tenant_id = 7; tenant_name = bytes "acme"; root_inode_id = 1 })
unfolding get_tenant
sample_tenant = refl

write_file-read_back_example :
    (db' : Db) × (write_file outside 7 (bytes "/d/a") 0 two_lines sample_db
      ≡ (ok (u32 (length two_lines)), db'))
    × ((offset size : ℕ)
        → read_file outside 7 (bytes "/d/a") offset size db'
          ≡ (ok (slice offset size (if blank two_lines then [] else to_lf two_lines)), db'))
write_file-read_back_example =
    write_file-read_back outside marks-IsLawful 7 (bytes "/d/a") two_lines sample_db
      (record { tenant_id = 7; tenant_name = bytes "acme"; root_inode_id = 1 }) sample_layer
      sample_file ascii_encoding lf_ending 3 no_hook sample_tenant file_resolves refl
      two_lines_are_text sample-IsReady ((λ e. cc e), ((λ e. cc e), ((λ e. refl), tt))) refl
