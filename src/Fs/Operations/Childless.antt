-- ===== src/Fs/Operations/Childless.antt =====
-- What is left of the table of inodes when one without children is deleted, and where names lead in it.
use tarbox.Base.{
  ℕ, zero, suc, ◌≡◌, refl, ap, ◌∙◌, subst, Bytes, bytes_eq, Bool, true, false, not, ◌&&◌, none,
  some, List, [], ◌∷◌, length, keep, find, find-holds, All, is_some, ◌==◌, ==_iff, arith,
  Bool-cases, inl, inr,
}
use tarbox.Storage.Models.{TenantId, InodeId, Inode, Db}
use tarbox.Storage.Inodes.{
  get_inode, get_by_parent_and_name, is_row, is_child, delete_inode, cascade, child_ids, mem,
}
use tarbox.Fs.Operations.Resolve.{Leads, here, step}

find-keep-some {ℓ} :
    {A : Type ℓ} (p q : A → Bool) (xs : List A) (a : A)
    → find q xs ≡ some a
    → p a ≡ true
    → find q (keep p xs) ≡ some a
find-keep-some p q [] a h k = cc h
find-keep-some p q (x ∷ xs) a h k = elim (Bool-cases (q x)) [
  | inl e ↦
      let same : some x ≡ some a = rw e at h in let kept : p x ≡ true = cc in rw (kept, e) same
  | inr e ↦ elim (Bool-cases (p x)) [
    | inl f ↦ rw (f, e) (find-keep-some p q xs a (rw e at h) k)
    | inr f ↦ rw f (find-keep-some p q xs a (rw e at h) k)
  ]
]

module _ (t : TenantId) (i : InodeId) where
  -- No row is below the inode.
  abbrev pub IsChildless : List Inode → Type 0
  IsChildless rows = All (λ (x : Inode). is_child t i x ≡ false) rows

  child_ids-none : (rows : List Inode) → IsChildless rows → child_ids t (i ∷ []) rows ≡ []
  child_ids-none [] h = refl
  child_ids-none (x ∷ rows) h = ground (arith, child_ids-none rows h.1)

  cascade-alone :
      (fuel : ℕ) (rows : List Inode) → IsChildless rows → cascade fuel t (i ∷ []) rows ≡ i ∷ []
  unfolding cascade
  cascade-alone zero rows h = refl
  cascade-alone (suc fuel) rows h = rw (child_ids-none rows h) refl

  no_child :
      (c : Bytes) (rows : List Inode)
      → IsChildless rows
      → find (λ r. is_child t i r && bytes_eq r.name c) rows ≡ none
  no_child c [] h = refl
  no_child c (x ∷ rows) h = ground (arith, no_child c rows h.1)

  abbrev pub stays : Inode → Bool
  stays r = not (r.tenant_id == t && mem r.inode_id (i ∷ []))

  -- Names lead nowhere from an inode without children.
  stuck :
      (db : Db) (a j : InodeId) (cs : List Bytes)
      → IsChildless db.inodes
      → Leads t db a cs j
      → a ≡ i
      → j ≡ i
  unfolding get_by_parent_and_name
  stuck db _ j _ h (here _) e = e
  stuck db _ j _ h (step a _ c cs r f l) e =
      let nothing = subst (λ k. get_by_parent_and_name t k c db ≡ some r) e f in
      cc (no_child c db.inodes h)

  pub Leads-kept :
      (db db' : Db) (a j : InodeId) (cs : List Bytes)
      → IsChildless db.inodes
      → db'.inodes ≡ keep stays db.inodes
      → (j == i) ≡ false
      → Leads t db a cs j
      → Leads t db' a cs j
  unfolding get_by_parent_and_name
  Leads-kept db db' _ j _ h k n (here _) = here j
  Leads-kept db db' _ j _ h k n (step a _ c cs r f l) = elim (Bool-cases (r.inode_id == i)) [
    | inl e ↦
        let same = stuck db r.inode_id j cs h l ((==_iff r.inode_id i).0 e) in
        absurd (ground (arith, (==_iff j i).1 same))
    | inr e ↦
        step a j c cs r
          (ap (find (λ x. is_child t a x && bytes_eq x.name c)) k
            ∙ find-keep-some stays _ db.inodes r f (ground arith))
          (Leads-kept db db' r.inode_id j cs h k n l)
  ]

  pub row_kept :
      (db db' : Db) (j : InodeId) (s : Inode)
      → db'.inodes ≡ keep stays db.inodes
      → get_inode t j db ≡ some s
      → (s.inode_id == i) ≡ false
      → get_inode t j db' ≡ some s
  unfolding get_inode
  row_kept db db' j s k f n =
      ap (find (is_row t j)) k ∙ find-keep-some stays _ db.inodes s f (ground arith)

  pub deleted :
      (db : Db)
      → is_some (get_inode t i db) ≡ true
      → IsChildless db.inodes
      → (delete_inode t i db).1.inodes ≡ keep stays db.inodes
  unfolding delete_inode
  deleted db e h = rw (e, cascade-alone (length db.inodes) db.inodes h) refl

pub row_id :
    (t : TenantId) (j : InodeId) (db : Db) (s : Inode) → get_inode t j db ≡ some s → s.inode_id ≡ j
unfolding get_inode
row_id t j db s f =
    let own = find-holds (is_row t j) db.inodes s f in (==_iff s.inode_id j).0 (ground arith)
