-- ===== src/Fs/Operations/Create.antt =====
-- `create_directory` and `create_file`: when they succeed, and that the new inode is the one its
-- path resolves to, while every other path resolves as before.
use tarbox.Base.{
  ℕ, suc, ◌<◌, ◌≡◌, refl, subst, sym, ◌∙◌, Bytes, bytes_eq, bytes_eq_refl, true, ◌&&◌, none, some,
  List, [], ◌∷◌, ◌++◌, All, ok, eq_refl, find-append, find-append_none, find-none, find-holds,
  All-append, All-map, arith,
}
use tarbox.Path.{split_path}
use tarbox.Path.Components.{split_path-components, snoc}
use tarbox.Storage.Models.{TenantId, InodeId, Inode, InodeType, CreateInodeInput, Db}
use tarbox.Storage.Inodes.{
  get_inode, get_by_parent_and_name, create_inode, check_parent, fresh_inode, is_row, is_child,
}
use tarbox.Fs.Operations.{FileSystem, resolve_path, create_child, child_input, is_dir}
use tarbox.Fs.Operations.Resolve.{Leads, here, step, resolve_path_iff}

-- The ids of the rows are those that the sequence gave out.
abbrev pub IsSequenced : Db → Type 0
IsSequenced db = All (λ (r : Inode). r.inode_id < db.next_inode) db.inodes

-- The database with the inode that `create` inserts.
abbrev pub with_inode : CreateInodeInput → Db → Db
with_inode c db = record db {
  inodes = db.inodes ++ fresh_inode c db ∷ [];
  next_inode = suc db.next_inode;
}

module _ (c : CreateInodeInput) (db : Db) where
  keeps_child :
      (t : TenantId) (p : InodeId) (n : Bytes) (r : Inode)
      → get_by_parent_and_name t p n db ≡ some r
      → get_by_parent_and_name t p n (with_inode c db) ≡ some r
  unfolding get_by_parent_and_name
  keeps_child t p n r =
      find-append (λ r. is_child t p r && bytes_eq r.name n) db.inodes (fresh_inode c db ∷ []) r

  keeps_inode :
      (t : TenantId) (i : InodeId) (r : Inode)
      → get_inode t i db ≡ some r
      → get_inode t i (with_inode c db) ≡ some r
  unfolding get_inode
  keeps_inode t i r = find-append (is_row t i) db.inodes (fresh_inode c db ∷ []) r

  new_inode :
      IsSequenced db
      → get_inode c.tenant_id db.next_inode (with_inode c db) ≡ some (fresh_inode c db)
  unfolding get_inode
  new_inode v =
      let missing =
        find-none (is_row c.tenant_id db.next_inode) (λ (r : Inode). r.inode_id < db.next_inode)
          db.inodes (λ r h. ground arith) v in
      find-append_none (is_row c.tenant_id db.next_inode) db.inodes (fresh_inode c db ∷ []) missing
      ∙ rw (eq_refl c.tenant_id, eq_refl db.next_inode) refl

  new_child :
      (p : InodeId)
      → c.parent_id ≡ some p
      → get_by_parent_and_name c.tenant_id p c.name db ≡ none
      → get_by_parent_and_name c.tenant_id p c.name (with_inode c db) ≡ some (fresh_inode c db)
  unfolding get_by_parent_and_name
  new_child p e h =
      find-append_none (λ r. is_child c.tenant_id p r && bytes_eq r.name c.name) db.inodes
        (fresh_inode c db ∷ []) h
      ∙ rw (e, eq_refl c.tenant_id, eq_refl p, bytes_eq_refl c.name) refl

  check_parent-ok :
      (p : InodeId) (r : Inode)
      → get_inode c.tenant_id p db ≡ some r
      → get_by_parent_and_name c.tenant_id p c.name db ≡ none
      → check_parent c.tenant_id (some p) c.name db ≡ ok tt
  unfolding check_parent
  check_parent-ok p r g h = rw (g, h) refl

  -- An insert below a parent that is there, with a name that is new, succeeds.
  create_inode-ok :
      (p : InodeId) (r : Inode)
      → c.parent_id ≡ some p
      → get_inode c.tenant_id p db ≡ some r
      → get_by_parent_and_name c.tenant_id p c.name db ≡ none
      → create_inode c db ≡ (ok (fresh_inode c db), with_inode c db)
  unfolding create_inode
  create_inode-ok p r e g h =
      let passes =
        subst (λ q. check_parent c.tenant_id q c.name db ≡ ok tt) (sym e)
          (check_parent-ok p r g h) in
      rw (create_inode, passes) refl

Leads-keeps :
    (c : CreateInodeInput) (db : Db) (t : TenantId) (i j : InodeId) (cs : List Bytes)
    → Leads t db i cs j
    → Leads t (with_inode c db) i cs j
Leads-keeps c db t i _ _ (here _) = here i
Leads-keeps c db t i j _ (step _ _ n cs r e l) =
    step i j n cs r (keeps_child c db t i n r e) (Leads-keeps c db t r.inode_id j cs l)

Leads-snoc :
    (t : TenantId) (db : Db) (n : Bytes) (i j : InodeId) (cs : List Bytes) (r : Inode)
    → Leads t db i cs j
    → get_by_parent_and_name t j n db ≡ some r
    → Leads t db i (snoc cs n) r.inode_id
Leads-snoc t db n i _ _ r (here _) h = step i r.inode_id n [] r h (here r.inode_id)
Leads-snoc t db n i j _ r (step _ _ m cs s e l) h =
    step i r.inode_id m (snoc cs n) s e (Leads-snoc t db n s.inode_id j cs r l h)

id_of_row :
    (t : TenantId) (j : InodeId) (db : Db) (r : Inode) → get_inode t j db ≡ some r → r.inode_id ≡ j
unfolding get_inode
id_of_row t j db r h = let k = find-holds (is_row t j) db.inodes r h in ground arith

-- What `create_child` needs: the parent is a directory, and has no child of this name.
pub record IsFree (fs : FileSystem) (path name : Bytes) (parent : Inode) (db : Db) : Type 0 where
  pub parent_path : Bytes
  pub splits : split_path path ≡ ok (parent_path, name)
  pub resolves : resolve_path fs parent_path db ≡ ok parent
  pub directory : is_dir parent.inode_type ≡ true
  pub free : get_by_parent_and_name fs.tenant_id parent.inode_id name db ≡ none

module _ (fs : FileSystem) (path name : Bytes) (parent : Inode) (kind : InodeType) (mode : ℕ)
    (db : Db) (v : IsSequenced db) (f : IsFree fs path name parent db) where
  abbrev pub input : CreateInodeInput
  input = child_input fs parent.inode_id name kind mode

  row_of_parent : get_inode fs.tenant_id parent.inode_id db ≡ some parent
  row_of_parent =
      let (cs, j, c, l, g) = (resolve_path_iff fs f.parent_path db parent).0 f.resolves in
      subst (λ k. get_inode fs.tenant_id k db ≡ some parent)
        (sym (id_of_row fs.tenant_id j db parent g)) g

  -- Below a directory without a child of that name, creating an inode succeeds, with the row of the
  -- given type and mode.
  pub create_child-ok :
      create_child fs path kind mode db ≡ (ok (fresh_inode input db), with_inode input db)
  unfolding create_child
  create_child-ok =
      rw (f.splits, f.resolves, f.directory, f.free)
        (create_inode-ok input db parent.inode_id parent refl row_of_parent f.free)

  created_resolves : resolve_path fs path (with_inode input db) ≡ ok (fresh_inode input db)
  created_resolves =
      let (cs, j, c, l, g) = (resolve_path_iff fs f.parent_path db parent).0 f.resolves in
      let (ds, whole, above) = split_path-components path f.parent_path name f.splits in
      let same : cs ≡ ds = cc (c, above) in
      let l' : Leads fs.tenant_id (with_inode input db) fs.root_inode_id ds parent.inode_id =
        subst (λ k. Leads fs.tenant_id (with_inode input db) fs.root_inode_id ds k)
          (sym (id_of_row fs.tenant_id j db parent g))
          (subst (λ k. Leads fs.tenant_id (with_inode input db) fs.root_inode_id k j) same
            (Leads-keeps input db fs.tenant_id fs.root_inode_id j cs l)) in
      (resolve_path_iff fs path (with_inode input db) (fresh_inode input db)).1 (
        snoc ds name,
        db.next_inode,
        whole,
        Leads-snoc fs.tenant_id (with_inode input db) name fs.root_inode_id parent.inode_id ds
            (fresh_inode input db) l' (new_child input db parent.inode_id refl f.free),
        new_inode input db v,
      )

pub keeps_resolved :
    (fs : FileSystem) (c : CreateInodeInput) (q : Bytes) (db : Db) (s : Inode)
    → resolve_path fs q db ≡ ok s
    → resolve_path fs q (with_inode c db) ≡ ok s
keeps_resolved fs c q db s h =
    let (cs, j, p, l, g) = (resolve_path_iff fs q db s).0 h in
    (resolve_path_iff fs q (with_inode c db) s).1 (
      cs,
      j,
      p,
      Leads-keeps c db fs.tenant_id fs.root_inode_id j cs l,
      keeps_inode c db fs.tenant_id j s g,
    )

-- If the ids of the rows were given out by the sequence, below a directory that has no child of
-- the name, creating an inode succeeds with a row of the
-- given type and mode; the new path resolves to that row, and every path that resolved before
-- resolves to the same row as before.
pub create_child-resolves :
    (fs : FileSystem) (path name : Bytes) (parent : Inode) (kind : InodeType) (mode : ℕ) (db : Db)
    → IsSequenced db
    → IsFree fs path name parent db
    → (r : Inode) × (db' : Db) × (create_child fs path kind mode db ≡ (ok r, db'))
      × (r.inode_type ≡ kind)
      × (r.mode ≡ mode)
      × (resolve_path fs path db' ≡ ok r)
      × ((q : Bytes) (s : Inode) → resolve_path fs q db ≡ ok s → resolve_path fs q db' ≡ ok s)
      × IsSequenced db'
create_child-resolves fs path name parent kind mode db v f =
    let c = child_input fs parent.inode_id name kind mode in
    (
      fresh_inode c db,
      with_inode c db,
      create_child-ok fs path name parent kind mode db v f,
      refl,
      refl,
      created_resolves fs path name parent kind mode db v f,
      λ q s. keeps_resolved fs c q db s,
      All-append _ db.inodes (fresh_inode c db ∷ []) (All-map db.inodes (λ r h. omega arith) v)
          (omega arith, tt),
    )
