-- ===== src/Fs/Operations/Removal.antt =====
-- `delete_file` and `remove_directory`: where paths lead afterwards.
mod Examples
use tarbox.Base.{
  ℕ, zero, suc, ◌≡◌, refl, ap, sym, ◌∙◌, subst, Bytes, bytes_eq, Bool, true, false, not, ◌&&◌, none,
  some, List, [], ◌∷◌, length, List-cases, keep, find, find-holds, All, ok, err, is_empty, ◌⊎◌, ◌≢◌,
  is_some, ◌==◌, ==_iff, eq_refl, arith, Bool-cases, inl, inr,
}
use tarbox.Storage.Models.{TenantId, InodeId, Inode, Db}
use tarbox.Storage.Inodes.{
  get_inode, get_by_parent_and_name, is_row, is_child, delete_inode, cascade, child_ids, mem, place,
  order_by_name, list_children,
}
use tarbox.Storage.Inodes.Deletion.{IsGone, delete_inode-IsGone}
use tarbox.Fs.Operations.{FileSystem, resolve_path, is_dir, list_directory, remove_directory}
use tarbox.Path.{directory_not_empty}
use tarbox.Fs.Operations.Resolve.{Leads, here, step, resolve_path_iff}
use tarbox.Fs.Operations.Childless.{IsChildless, stays, Leads-kept, row_kept, deleted, row_id}

-- What a removal of the inode `i` leaves: nothing refers to it, no path resolves to it, and every path
-- to another inode resolves as before.
pub record IsRemoved (fs : FileSystem) (i : InodeId) (db db' : Db) : Type 0 where
  pub gone : IsGone fs.tenant_id i db'
  pub unresolved :
      (q : Bytes) (s : Inode) → resolve_path fs q db' ≡ ok s → (s.inode_id == i) ≡ false
  pub others_kept :
      (q : Bytes) (s : Inode)
      → resolve_path fs q db ≡ ok s
      → (s.inode_id == i) ≡ false
      → resolve_path fs q db' ≡ ok s

removed :
    (fs : FileSystem) (i : InodeId) (db db' : Db)
    → IsChildless fs.tenant_id i db.inodes
    → db'.inodes ≡ keep (stays fs.tenant_id i) db.inodes
    → IsGone fs.tenant_id i db'
    → IsRemoved fs i db db'
removed fs i db db' h k g = record {
  gone = g;
  unresolved = λ q s r.
      let (cs, j, c, l, f) = (resolve_path_iff fs q db' s).0 r in
      elim (Bool-cases (s.inode_id == i)) [
        | inr e ↦ e
        | inl e ↦
            let same : j ≡ i = sym (row_id fs.tenant_id j db' s f) ∙ (==_iff s.inode_id i).0 e in
            let here_too = subst (λ k. get_inode fs.tenant_id k db' ≡ some s) same f in
            cc (g.no_row)
      ];
  others_kept = λ q s r n.
      let (cs, j, c, l, f) = (resolve_path_iff fs q db s).0 r in
      let other : (j == i) ≡ false =
        subst (λ k. (k == i) ≡ false) (row_id fs.tenant_id j db s f) n in
      (resolve_path_iff fs q db' s).1 (
        cs,
        j,
        c,
        Leads-kept fs.tenant_id i db db' fs.root_inode_id j cs h k other l,
        row_kept fs.tenant_id i db db' j s k f n,
      );
}

found_row :
    (fs : FileSystem) (path : Bytes) (db : Db) (row : Inode)
    → resolve_path fs path db ≡ ok row
    → is_some (get_inode fs.tenant_id row.inode_id db) ≡ true
found_row fs path db row h =
    let (cs, j, c, l, f) = (resolve_path_iff fs path db row).0 h in
    rw (row_id fs.tenant_id j db row f, f) refl

place-filled :
    (collate : Bytes → Bytes → Bool) (r : Inode) (rs : List Inode)
    → is_empty (place collate r rs) ≡ false
place-filled collate r [] = refl
place-filled collate r (x ∷ rs) = elim (Bool-cases (collate r.name x.name)) [
  | inl e ↦ rw e refl
  | inr e ↦ rw e refl
]

unlisted-IsChildless :
    (collate : Bytes → Bytes → Bool) (t : TenantId) (i : InodeId) (rows : List Inode)
    → is_empty (order_by_name collate (keep (is_child t i) rows)) ≡ true
    → IsChildless t i rows
unlisted-IsChildless collate t i [] h = tt
unlisted-IsChildless collate t i (x ∷ rows) h = elim (Bool-cases (is_child t i x)) [
  | inr e ↦ (e, unlisted-IsChildless collate t i rows (rw e at h))
  | inl e ↦
      let listed : is_empty (place collate x (order_by_name collate (keep (is_child t i) rows)))
          ≡ true =
        rw e at h in
      absurd (cc (place-filled collate x (order_by_name collate (keep (is_child t i) rows))))
]

-- Removing a directory that a path resolves to succeeds exactly if its listing is empty. It then
-- leaves nothing that refers to the inode and no path that resolves to it, while every path that
-- resolved to another inode resolves as before; otherwise nothing is changed.
pub remove_directory-IsRemoved :
    (collate : Bytes → Bytes → Bool) (fs : FileSystem) (path : Bytes) (db : Db) (row : Inode)
    → resolve_path fs path db ≡ ok row
    → is_dir row.inode_type ≡ true
    → ((list_directory collate fs path db ≡ ok [])
        × (db' : Db) × (remove_directory collate fs path db ≡ (ok tt, db'))
        × IsRemoved fs row.inode_id db db')
      ⊎ ((list_directory collate fs path db ≢ ok [])
          × (remove_directory collate fs path db ≡ (err (directory_not_empty path), db)))
unfolding remove_directory list_directory list_children
remove_directory-IsRemoved collate fs path db row r d =
    let t = fs.tenant_id in
    let i = row.inode_id in
    let there = found_row fs path db row r in
    elim (List-cases (order_by_name collate (keep (is_child t i) db.inodes))) [
      | inl e ↦
          let alone = unlisted-IsChildless collate t i db.inodes (ap is_empty e) in
          inl (
            rw (list_directory, r, d, e) refl,
            (delete_inode t i db).1,
            rw (remove_directory, r, d, e) refl,
            removed fs i db (delete_inode t i db).1 alone (deleted t i db there alone)
                (delete_inode-IsGone t i db there).1,
          )
      | inr (x, xs, e) ↦
          inr (λ h. cc (rw (list_directory, r, d, e) at h), rw (remove_directory, r, d, e) refl)
    ]
