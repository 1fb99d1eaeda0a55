-- ===== src/Fs/Operations/Examples.antt =====
-- Paths in the sample database.
use tarbox.Base.{
  Bytes, bytes, bytes_eq, starts_with, none, some, List, [], ◌∷◌, err, true, false, ◌≡◌, ◌↔◌, refl,
  ok, arith, is_utf8, if◌then◌else◌,
}
use tarbox.Path.{
  storage, path_components, split_path, normalize_path, parts, split, check_parts, render, join,
}
use tarbox.Storage.Models.{InodeId, Inode, Layer, file, Db}
use tarbox.Storage.Inodes.{get_inode, get_by_parent_and_name}
use tarbox.Storage.Sample.{sample_db, sample_file, sample_dir, sample_layer}
use tarbox.Layer.Cow.Examples.{marks, marks-IsLawful, two_lines}
use tarbox.Fs.Operations.{
  FileSystem, read_file, read_file_internal, write_file, resolve_path, resolve_normalized, walk,
  create_child,
}
use tarbox.Storage.Layers.{get_layer, get_current}
use tarbox.Storage.Texts.{get_metadata, get_line_mappings, order_by_line, get_block}
use tarbox.Layer.Cow.{read_text_file, mapped_lines}
use tarbox.Layer.Lines.{reassemble, join_lines, separator}
use tarbox.Fs.Operations.Binary.{write_file-binary}
use tarbox.Layer.Manager.{get_current_layer}
use tarbox.Layer.Lines.Glue.{to_lf}
use tarbox.Layer.Lines.Laws.{blank}
use tarbox.Layer.Detection.{
  default_config, detect, detect_encoding, text, binary, ascii_encoding, lf_ending,
  count_non_printable, analyze_lines, scan,
}
use tarbox.Fs.Operations.Rewritten.{IsRewritten}
use tarbox.Fs.Operations.Content.{IsReady, write_file-read, write_file_readonly}
use tarbox.Fs.Operations.Resolve.{Leads, resolve_path_iff}
use tarbox.Fs.Operations.Create.{create_child-resolves, IsSequenced, IsFree}

abbrev pub mounted : FileSystem
mounted = record { tenant_id = 7; root_inode_id = 1; current_layer_id = 20 }

resolve_path_iff_example : (resolve_path mounted (bytes "/d//a/") sample_db ≡ ok sample_file) ↔ (
    (cs : List Bytes) × (j : InodeId) × (path_components (bytes "/d//a/") ≡ ok cs)
    × Leads 7 sample_db 1 cs j
    × (get_inode 7 j sample_db ≡ some sample_file))
resolve_path_iff_example = resolve_path_iff mounted (bytes "/d//a/") sample_db sample_file

new_path_splits : split_path (bytes "/d/b") ≡ ok (bytes "/d", bytes "b")
unfolding split_path normalize_path parts split check_parts render join bytes_eq starts_with
new_path_splits = refl

pub parent_resolves : resolve_path mounted (bytes "/d") sample_db ≡ ok sample_dir
unfolding resolve_path resolve_normalized walk path_components normalize_path parts split
    check_parts render join bytes_eq starts_with get_inode get_by_parent_and_name
parent_resolves = refl

no_child_yet : get_by_parent_and_name 7 2 (bytes "b") sample_db ≡ none
unfolding get_by_parent_and_name bytes_eq
no_child_yet = refl

new_path-IsFree : IsFree mounted (bytes "/d/b") (bytes "b") sample_dir sample_db
new_path-IsFree = record {
  parent_path = bytes "/d";
  splits = new_path_splits;
  resolves = parent_resolves;
  directory = refl;
  free = no_child_yet;
}

create_child-resolves_example :
    (r : Inode) × (db' : Db) × (create_child mounted (bytes "/d/b") file 420 sample_db
      ≡ (ok r, db'))
    × (r.inode_type ≡ file)
    × (r.mode ≡ 420)
    × (resolve_path mounted (bytes "/d/b") db' ≡ ok r)
    × ((q : Bytes) (s : Inode)
        → resolve_path mounted q sample_db ≡ ok s
        → resolve_path mounted q db' ≡ ok s)
    × IsSequenced db'
create_child-resolves_example =
    create_child-resolves mounted (bytes "/d/b") (bytes "b") sample_dir file 420 sample_db
      (omega arith, (omega arith, (omega arith, tt))) new_path-IsFree

pub file_resolves : resolve_path mounted (bytes "/d/a") sample_db ≡ ok sample_file
unfolding resolve_path resolve_normalized walk path_components normalize_path parts split
    check_parts render join bytes_eq starts_with get_inode get_by_parent_and_name
file_resolves = refl

pub two_lines_are_text : detect default_config two_lines ≡ text ascii_encoding lf_ending 3
unfolding detect detect_encoding analyze_lines scan count_non_printable is_utf8 starts_with
two_lines_are_text = refl

pub sample-IsReady :
    IsReady marks marks-IsLawful mounted 3
      (bytes "/d/a")
      two_lines
      sample_db
      sample_layer
      sample_file
unfolding get_current_layer get_current get_layer get_inode get_metadata
sample-IsReady = record {
  on_current = refl;
  same = refl;
  there = refl;
  hashed = record { hashes = tt; handed_out = tt; by_id = tt };
  fresh = λ _. (refl, refl);
}

write_file-read_example :
    (db' : Db) × (write_file marks mounted (bytes "/d/a") two_lines sample_db ≡ (ok tt, db'))
    × (read_file mounted (bytes "/d/a") db' ≡ ok (if blank two_lines then [] else to_lf two_lines))
    × IsRewritten 7 3 sample_file sample_db db'
write_file-read_example =
    write_file-read marks marks-IsLawful mounted (bytes "/d/a") two_lines sample_db sample_layer
      sample_file ascii_encoding lf_ending 3 file_resolves refl two_lines_are_text sample-IsReady
      ((λ e. cc e), ((λ e. cc e), ((λ e. refl), tt))) refl

-- The same database, with its layer made readonly.
abbrev sealed_layer : Layer
sealed_layer = record sample_layer { is_readonly = true }

abbrev sealed_db : Db
sealed_db = record sample_db { layers = sealed_layer ∷ [] }

sealed_resolves : resolve_path mounted (bytes "/d/a") sealed_db ≡ ok sample_file
unfolding resolve_path resolve_normalized walk path_components normalize_path parts split
    check_parts render join bytes_eq starts_with get_inode get_by_parent_and_name
sealed_resolves = refl

sealed-IsReady :
    IsReady marks marks-IsLawful mounted 3
      (bytes "/d/a")
      two_lines
      sealed_db
      sealed_layer
      sample_file
unfolding get_current_layer get_current get_layer get_inode get_metadata
sealed-IsReady = record {
  on_current = refl;
  same = refl;
  there = refl;
  hashed = record { hashes = tt; handed_out = tt; by_id = tt };
  fresh = λ _. (refl, refl);
}

write_file_readonly_example :
    (db' : Db) × (write_file marks mounted (bytes "/d/a") two_lines sealed_db
      ≡ (err (storage (bytes "Cannot modify readonly layer")), db'))
    × (read_file_internal mounted 3 db' ≡ (if blank two_lines then [] else to_lf two_lines))
write_file_readonly_example =
    write_file_readonly marks marks-IsLawful mounted (bytes "/d/a") two_lines sealed_db sealed_layer
      sample_file ascii_encoding lf_ending 3 sealed_resolves refl two_lines_are_text sealed-IsReady
      refl

-- The same database, with a text in the layer.
abbrev worded_db : Db
worded_db = record sample_db {
  text_blocks =
      record {
        block_id = 25;
        content_hash = bytes "h";
        content = bytes "ab";
        encoding = bytes "Ascii";
        ref_count = 1;
      }
      ∷ [];
  text_metadata =
      record {
        tenant_id = 7;
        inode_id = 3;
        layer_id = 20;
        total_lines = 1;
        encoding = bytes "Ascii";
        line_ending = bytes "None";
        has_trailing_newline = false;
      }
      ∷ [];
  line_map =
      record {
        tenant_id = 7;
        inode_id = 3;
        layer_id = 20;
        line_number = 1;
        block_id = 25;
        block_line_offset = 0;
      }
      ∷ [];
}

zeros_are_binary : detect default_config (0 ∷ 255 ∷ []) ≡ binary
unfolding detect
zeros_are_binary = refl

worded_resolves : resolve_path mounted (bytes "/d/a") worded_db ≡ ok sample_file
unfolding resolve_path resolve_normalized walk path_components normalize_path parts split
    check_parts render join bytes_eq starts_with get_inode get_by_parent_and_name
worded_resolves = refl

write_file-binary_example :
    (db' : Db) × (write_file marks mounted (bytes "/d/a") (0 ∷ 255 ∷ []) worded_db ≡ (ok tt, db'))
    × (read_file mounted (bytes "/d/a") db' ≡ ok (bytes "ab"))
    × IsRewritten 7 3 sample_file worded_db db'
unfolding get_current_layer get_current get_layer get_inode read_text_file get_metadata
    get_line_mappings order_by_line mapped_lines get_block reassemble join_lines separator bytes_eq
write_file-binary_example =
    write_file-binary marks mounted (bytes "/d/a") (0 ∷ 255 ∷ []) worded_db sample_layer sample_file
      worded_resolves refl zeros_are_binary refl refl
      ((λ e. cc e), ((λ e. cc e), ((λ e. refl), tt))) refl
