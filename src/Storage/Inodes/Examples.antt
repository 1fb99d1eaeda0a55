-- ===== src/Storage/Inodes/Examples.antt =====
-- Inode updates on the sample database.
use tarbox.Base.{none, some, ◌≡◌, refl, is_some, true}
use tarbox.Storage.Models.{UpdateInodeInput}
use tarbox.Storage.Inodes.{get_inode, delete_inode}
use tarbox.Storage.Inodes.Deletion.{
  delete_inode-IsUntouched, delete_inode-IsGone, IsUntouched, IsGone,
}
use tarbox.Storage.Sample.{sample_db}

abbrev nothing : UpdateInodeInput
nothing = record {
  size = none;
  mode = none;
  uid = none;
  gid = none;
  atime = none;
  mtime = none;
  ctime = none;
}

abbrev resize : UpdateInodeInput
resize = record {
  size = some 12;
  mode = none;
  uid = none;
  gid = none;
  atime = none;
  mtime = some 9;
  ctime = none;
}

delete_inode-IsUntouched_example : IsUntouched 8 sample_db (delete_inode 7 2 sample_db).1
delete_inode-IsUntouched_example = delete_inode-IsUntouched 7 8 2 sample_db refl

dir_there : is_some (get_inode 7 2 sample_db) ≡ true
unfolding get_inode
dir_there = refl

delete_inode-IsGone_example :
    ((delete_inode 7 2 sample_db).0 ≡ true) × IsGone 7 2 (delete_inode 7 2 sample_db).1
delete_inode-IsGone_example = delete_inode-IsGone 7 2 sample_db dir_there
