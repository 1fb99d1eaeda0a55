-- ===== src/Layer/UnionView/Examples.antt =====
-- A change that is recorded in the sample database, and the view after it.
use tarbox.Base.{bytes, none, some, ◌≡◌, refl, true, ok, is_some, pos}
use tarbox.Storage.Models.{add, Db}
use tarbox.Storage.Inodes.{get_inode}
use tarbox.Storage.Layers.{get_layer, get_current}
use tarbox.Storage.Sample.{sample_db, sample_layer}
use tarbox.Layer.Manager.{get_current_layer, record_change}
use tarbox.Layer.UnionView.{
  UnionView, from_current, from_layer, lookup_file, get_file_history, exists,
}
use tarbox.Layer.UnionView.Lookup.{lookup_file-history, newest, record_change-lookup}

lookup_file-history_example :
    lookup_file (from_layer 7 20 sample_db) (bytes "/d/a") sample_db
    ≡ newest (get_file_history (from_layer 7 20 sample_db) (bytes "/d/a") sample_db)
lookup_file-history_example =
    lookup_file-history (from_layer 7 20 sample_db) (bytes "/d/a") sample_db

sample_current : get_current_layer 7 sample_db ≡ ok sample_layer
unfolding get_current_layer get_current get_layer
sample_current = refl

sample_inode_there : is_some (get_inode 7 3 sample_db) ≡ true
unfolding get_inode
sample_inode_there = refl

record_change-lookup_example :
    (db' : Db) × (view : UnionView) × (record_change 7 3
        (bytes "/d/a")
        add
        (some (pos 4))
        none
        sample_db
      ≡ (ok tt, db'))
    × (from_current 7 db' ≡ some view)
    × (lookup_file view (bytes "/d/a") db' ≡ exists 20 3)
record_change-lookup_example =
    record_change-lookup 7 3 (bytes "/d/a") add (some (pos 4)) none sample_db sample_layer
      sample_current refl sample_inode_there refl
