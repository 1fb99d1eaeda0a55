-- ===== src/Csi/Snapshots/Examples.antt =====
-- A snapshot of the sample volume, and a change of its file afterwards.
use tarbox.Base.{◌≡◌, refl, bytes, bytes_eq, none, ok}
use tarbox.Storage.Models.{Db, modify}
use tarbox.Storage.Sample.{sample_db, sample_layer}
use tarbox.Storage.Inodes.{get_inode}
use tarbox.Storage.Layers.{get_layer, get_current, create_layer}
use tarbox.Layer.Manager.{record_change, get_current_layer}
use tarbox.Layer.UnionView.{exists, from_layer, lookup_file}
use tarbox.Csi.Snapshots.{create_volume_snapshot}
use tarbox.Csi.Snapshots.Follows.{
  create_volume_snapshot-follows, IsWritable, snapshot_layer, taken_db,
}

sample-IsWritable :
    IsWritable 7 3 (bytes "/d/a") modify none none (bytes "s") sample_db sample_layer
unfolding get_current_layer get_current get_layer get_inode bytes_eq
sample-IsWritable = record {
  is_current = refl;
  writable = refl;
  inode_there = refl;
  no_entry = refl;
  layer_fresh = refl;
  entries_fresh = refl;
}

taken : create_volume_snapshot 7 (bytes "s") sample_db ≡ (
  ok (snapshot_layer 7 (bytes "s") sample_db sample_layer),
  taken_db 7 (bytes "s") sample_db sample_layer,
)
unfolding create_volume_snapshot create_layer get_current bytes_eq
taken = refl

create_volume_snapshot-follows_example :
    (db2 : Db) × (record_change 7 3
        (bytes "/d/a")
        modify
        none
        none
        (taken_db 7 (bytes "s") sample_db sample_layer)
      ≡ (ok tt, db2))
    × (lookup_file (from_layer 7 30 db2) (bytes "/d/a") db2 ≡ exists 20 3)
create_volume_snapshot-follows_example =
    create_volume_snapshot-follows 7 3 (bytes "/d/a") modify none none (bytes "s") sample_db
      sample_layer (snapshot_layer 7 (bytes "s") sample_db sample_layer)
      (taken_db 7 (bytes "s") sample_db sample_layer) sample-IsWritable taken
