-- ===== src/Wasi/Adapter/Examples.antt =====
-- A guest reads a file of the sample database.
use tarbox.Base.{Bytes, bytes, bytes_eq, starts_with, [], ◌∷◌, ◌≡◌, refl, ok, false, arith}
use tarbox.Path.{path_components, normalize_path, parts, split, check_parts, render, join}
use tarbox.Storage.Models.{Db}
use tarbox.Storage.Inodes.{get_inode, get_by_parent_and_name}
use tarbox.Storage.Blocks.{list_blocks, concat_blocks, order_by_index}
use tarbox.Storage.Texts.{get_metadata}
use tarbox.Storage.Sample.{sample_db}
use tarbox.Layer.Cow.{read_text_file}
use tarbox.Fs.Operations.{
  FileSystem, resolve_path, resolve_normalized, walk, read_file, read_file_internal,
}
use tarbox.Wasi.FdTable.{FileDescriptor, FdTable, new_descriptor, read_only, get, lookup}
use tarbox.Wasi.Adapter.Reading.{read_on, read_on-drop, IsReadable}

abbrev mounted : FileSystem
mounted = record { tenant_id = 7; root_inode_id = 1; current_layer_id = 20 }

abbrev five : Bytes
five = bytes "hello"

abbrev filled_db : Db
filled_db = record sample_db {
  blocks =
      record {
        block_id = 25;
        tenant_id = 7;
        inode_id = 3;
        block_index = 0;
        block_data = five;
        size = 5;
      }
      ∷ [];
}

abbrev opened : FileDescriptor
opened = new_descriptor 3 (bytes "/d/a") read_only false

abbrev table : FdTable
table = record { fds = (3, opened) ∷ []; next_fd = 4 }

file_content : read_file mounted (bytes "/d/a") filled_db ≡ ok five
unfolding read_file read_file_internal read_text_file list_blocks concat_blocks order_by_index
    get_metadata resolve_path resolve_normalized walk path_components normalize_path parts split
    check_parts render join bytes_eq starts_with get_inode get_by_parent_and_name
file_content = refl

opened-IsReadable : IsReadable mounted 3 2 filled_db five (omega arith) (omega arith) opened table
unfolding get lookup
opened-IsReadable = record {
  open_at = refl;
  allowed = refl;
  no_directory = refl;
  holds_content = file_content;
}

read_on-drop_example : read_on 6 mounted 3 2 filled_db table ≡ five
read_on-drop_example =
    read_on-drop mounted 3 2 filled_db five (omega arith) (omega arith) 6 opened table
      opened-IsReadable (omega arith)
