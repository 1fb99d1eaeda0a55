-- ===== src/Fs/Operations/Rewritten.antt =====
-- Paths after an UPDATE of one inode: they resolve to the same inodes.
use tarbox.Base.{
  ◌≡◌, refl, sym, subst, ap, ◌∙◌, Bytes, bytes_eq, Bool, true, ◌&&◌, some, List, [], ◌∷◌, find, All,
  Bool-cases, inl, inr, ok,
}
use mathlib.Core.Option.{some-injective}
use tarbox.Storage.Models.{TenantId, InodeId, Inode, UpdateInodeInput, Db}
use tarbox.Storage.Inodes.{is_row, is_child, get_inode, get_by_parent_and_name, replace_row}
use tarbox.Storage.Inodes.Update.{patched}
use tarbox.Storage.Layers.Counted.{LayersKept}
use tarbox.Fs.Operations.{FileSystem, resolve_path}
use tarbox.Fs.Operations.Resolve.{Leads, here, step, resolve_path_iff}

-- The key of the table: no other row is the inode.
abbrev pub IsSingle : TenantId → InodeId → Inode → List Inode → Type 0
IsSingle t i row = All (λ (x : Inode). is_row t i x ≡ true → x ≡ row)

-- A row that is the same but for what an UPDATE may set.
abbrev pub IsSame : Inode → Inode → Type 0
IsSame r s = (s.inode_id ≡ r.inode_id) × (s.inode_type ≡ r.inode_type)

module _ (t : TenantId) (i : InodeId) (row : Inode) (u : UpdateInodeInput) where
  module _ (q : Inode → Bool) (stable : (x : Inode) → q (patched u x) ≡ q x) where
    replaced_head :
        (x : Inode) (rs : List Inode)
        → (is_row t i x ≡ true → x ≡ row)
        → (y : Inode) × (replace_row t i (patched u row) (x ∷ rs)
            ≡ y ∷ replace_row t i (patched u row) rs)
          × (q y ≡ q x)
          × IsSame x y
    replaced_head x rs h = elim (Bool-cases (is_row t i x)) [
      | inr k ↦ (x, rw k refl, refl, (refl, refl))
      | inl k ↦
          let same : row ≡ x = sym (h k) in
          (
            patched u row,
            rw k refl,
            stable row ∙ ap q same,
            (ap (λ (z : Inode). z.inode_id) same, ap (λ (z : Inode). z.inode_type) same),
          )
    ]

    pub found_again :
        (rs : List Inode) (r : Inode)
        → IsSingle t i row rs
        → find q rs ≡ some r
        → (s : Inode) × (find q (replace_row t i (patched u row) rs) ≡ some s) × IsSame r s
    found_again [] r h e = cc e
    found_again (x ∷ rs) r h e =
        let (y, l, p, s) = replaced_head x rs h.0 in
        elim (Bool-cases (q x)) [
          | inl k ↦
              let same : x ≡ r = some-injective x r (rw k at e) in
              (
                y,
                rw (l, p, k) refl,
                (
                  s.0 ∙ ap (λ (z : Inode). z.inode_id) same,
                  s.1 ∙ ap (λ (z : Inode). z.inode_type) same,
                ),
              )
          | inr k ↦ let (z, f, i) = found_again rs r h.1 (rw k at e) in (z, rw (l, p, k) f, i)
        ]

  module _ (db db' : Db) (single : IsSingle t i row db.inodes)
      (changed : db'.inodes ≡ replace_row t i (patched u row) db.inodes) where
    pub Leads-kept : (k j : InodeId) (cs : List Bytes) → Leads t db k cs j → Leads t db' k cs j
    unfolding get_by_parent_and_name
    Leads-kept _ _ _ (here k) = here k
    Leads-kept k j _ (step _ _ c cs r e l) =
        let (s, f, same) =
          found_again (λ x. is_child t k x && bytes_eq x.name c) (λ x. refl) db.inodes r single e in
        step k j c cs s (rw changed f)
          (subst (λ n. Leads t db' n cs j) (sym same.0) (Leads-kept r.inode_id j cs l))

-- A path resolves to the same inode again.
pub resolved_again :
    (fs : FileSystem) (i : InodeId) (row : Inode) (u : UpdateInodeInput) (db db' : Db)
    (path : Bytes) (r : Inode)
    → IsSingle fs.tenant_id i row db.inodes
    → db'.inodes ≡ replace_row fs.tenant_id i (patched u row) db.inodes
    → resolve_path fs path db ≡ ok r
    → (s : Inode) × (resolve_path fs path db' ≡ ok s) × IsSame r s
unfolding get_inode
resolved_again fs i row u db db' path r single changed h =
    let (cs, j, c, l, g) = (resolve_path_iff fs path db r).0 h in
    let (s, f, same) =
      found_again fs.tenant_id i row u (is_row fs.tenant_id j) (λ x. refl) db.inodes r single g in
    (
      s,
      (resolve_path_iff fs path db' s).1 (
        cs,
        j,
        c,
        Leads-kept fs.tenant_id i row u db db' single changed fs.root_inode_id j cs l,
        rw changed f,
      ),
      same,
    )

-- What a write to the file of a row leaves of the other tables.
pub record IsRewritten (t : TenantId) (i : InodeId) (row : Inode) (a b : Db) : Type 0 where
  pub update : UpdateInodeInput
  pub inodes_changed : b.inodes ≡ replace_row t i (patched update row) a.inodes
  pub tenants_kept : b.tenants ≡ a.tenants
  pub current_kept : b.current ≡ a.current
  pub layers_kept : LayersKept a b
