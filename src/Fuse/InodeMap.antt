-- ===== src/Fuse/InodeMap.antt =====
-- src/fuse/adapter.rs, `InodeMap`: the numbers that the kernel knows paths by. The two hash maps are
-- association lists, and the counter is a u64.
pub mod Inverse
use tarbox.Base.{
  ℕ, ◌+◌, ◌%◌, Bytes, bytes, Option, none, some, List, [], ◌∷◌, get_key, insert_key, remove_key,
  number_key, text_key,
}
use tarbox.Wasi.FdTable.{u64_mod}

pub record InodeMap : Type 0 where
  pub inode_to_path : List (ℕ × Bytes)
  pub path_to_inode : List (Bytes × ℕ)
  pub next_inode : ℕ

unfoldable pub insert : ℕ → Bytes → InodeMap → InodeMap
insert inode path m = record m {
  inode_to_path = insert_key inode path m.inode_to_path;
  path_to_inode = insert_key path inode m.path_to_inode;
}

-- `new`: 1 is the root.
unfoldable pub new_map : InodeMap
unfolding insert
new_map = insert 1 (bytes "/") (record { inode_to_path = []; path_to_inode = []; next_inode = 2 })

unfoldable pub get_or_create : Bytes → InodeMap → ℕ × InodeMap
unfolding insert
get_or_create path m = elim (get_key path m.path_to_inode) [
  | some inode ↦ (inode, m)
  | none ↦ (
    m.next_inode,
    insert m.next_inode path (record m { next_inode = (m.next_inode + 1) % u64_mod }),
  )
]

unfoldable pub get_path : ℕ → InodeMap → Option Bytes
get_path inode m = get_key inode m.inode_to_path

unfoldable pub remove : ℕ → InodeMap → InodeMap
remove inode m = elim (get_key inode m.inode_to_path) [
  | none ↦ m
  | some path ↦ record m {
    inode_to_path = remove_key inode m.inode_to_path;
    path_to_inode = remove_key path m.path_to_inode;
  }
]
