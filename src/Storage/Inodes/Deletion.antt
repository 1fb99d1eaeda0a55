-- ===== src/Storage/Inodes/Deletion.antt =====
-- Deletion of an inode: what is gone after it, and that nothing of another tenant is.
use tarbox.Base.{
  ℕ, zero, suc, ◌≡◌, refl, sym, Bool, true, false, not, ◌&&◌, none, List, [], ◌∷◌, ◌++◌, length,
  keep, find, is_some, ◌==◌, eq_refl, ==_iff, subst, bytes_eq, arith, Bool-cases, inl, inr,
}
use tarbox.Storage.Models.{
  TenantId, InodeId, Inode, DataBlock, TextFileMetadata, TextLineMap, LayerEntry, Db,
}
use tarbox.Storage.Inodes.{
  get_inode, get_by_parent_and_name, is_row, is_child, delete_inode, cascade, child_ids, mem,
}

-- A filter that keeps everything with the property `q` does not change the search for it.
pub find-keep_same {ℓ} :
    {A : Type ℓ} (p q : A → Bool) (xs : List A)
    → ((x : A) → q x ≡ true → p x ≡ true)
    → find q (keep p xs) ≡ find q xs
find-keep_same p q [] f = refl
find-keep_same p q (x ∷ xs) f = ground (arith, find-keep_same p q xs f, f x)

keep-keep_same {ℓ} :
    {A : Type ℓ} (p q : A → Bool) (xs : List A)
    → ((x : A) → q x ≡ true → p x ≡ true)
    → keep q (keep p xs) ≡ keep q xs
keep-keep_same p q [] f = refl
keep-keep_same p q (x ∷ xs) f = ground (arith, keep-keep_same p q xs f, f x)

pub find-keep_gone {ℓ} :
    {A : Type ℓ} (p q : A → Bool) (xs : List A)
    → ((x : A) → q x ≡ true → p x ≡ false)
    → find q (keep p xs) ≡ none
find-keep_gone p q [] f = refl
find-keep_gone p q (x ∷ xs) f = ground (arith, find-keep_gone p q xs f, f x)

mem-append : (i : ℕ) (xs ys : List ℕ) → mem i xs ≡ true → mem i (xs ++ ys) ≡ true
mem-append i [] ys h = cc h
mem-append i (x ∷ xs) ys h = ground (arith, mem-append i xs ys)

-- The inode that is deleted is among those that go.
cascade-mem :
    (fuel : ℕ) (t : TenantId) (i : InodeId) (ps : List InodeId) (rows : List Inode)
    → mem i ps ≡ true
    → mem i (cascade fuel t ps rows) ≡ true
unfolding cascade
cascade-mem zero t i ps rows h = h
cascade-mem (suc fuel) t i ps rows h =
    ground (arith, mem-append i ps (cascade fuel t (child_ids t ps rows) rows))

abbrev doomed : TenantId → InodeId → Db → List InodeId
doomed t i db = cascade (length db.inodes) t (i ∷ []) db.inodes

-- All that another tenant has in these tables stays: the same rows, in the same order.
pub record IsUntouched (u : TenantId) (db db' : Db) : Type 0 where
  pub inodes_same : (j : InodeId) → get_inode u j db' ≡ get_inode u j db
  pub children_same :
      (p : InodeId) (n : List ℕ)
      → get_by_parent_and_name u p n db' ≡ get_by_parent_and_name u p n db
  pub blocks_same :
      keep (λ (b : DataBlock). b.tenant_id == u) db'.blocks
      ≡ keep (λ (b : DataBlock). b.tenant_id == u) db.blocks
  pub lines_same :
      keep (λ (m : TextLineMap). m.tenant_id == u) db'.line_map
      ≡ keep (λ (m : TextLineMap). m.tenant_id == u) db.line_map
  pub metadata_same :
      keep (λ (m : TextFileMetadata). m.tenant_id == u) db'.text_metadata
      ≡ keep (λ (m : TextFileMetadata). m.tenant_id == u) db.text_metadata
  pub entries_same :
      keep (λ (e : LayerEntry). e.tenant_id == u) db'.entries
      ≡ keep (λ (e : LayerEntry). e.tenant_id == u) db.entries

-- Deleting an inode of one tenant leaves every inode, block, line, text and entry of any other
-- tenant as it was.
pub delete_inode-IsUntouched :
    (t u : TenantId) (i : InodeId) (db : Db)
    → (u == t) ≡ false
    → IsUntouched u db (delete_inode t i db).1
unfolding delete_inode get_inode get_by_parent_and_name
delete_inode-IsUntouched t u i db h = elim (Bool-cases (is_some (find (is_row t i) db.inodes))) [
  | inr e ↦ rw e (record {
    inodes_same = λ j. refl;
    children_same = λ p n. refl;
    blocks_same = refl;
    lines_same = refl;
    metadata_same = refl;
    entries_same = refl;
  })
  | inl e ↦ rw e (record {
    inodes_same = λ j.
        find-keep_same (λ (r : Inode). not (r.tenant_id == t && mem r.inode_id (doomed t i db)))
          (is_row u j) db.inodes (λ r k. ground arith);
    children_same = λ p n.
        find-keep_same (λ (r : Inode). not (r.tenant_id == t && mem r.inode_id (doomed t i db)))
          (λ r. is_child u p r && bytes_eq r.name n) db.inodes (λ r k. ground arith);
    blocks_same =
        keep-keep_same (λ (r : DataBlock). not (r.tenant_id == t && mem r.inode_id (doomed t i db)))
          (λ r. r.tenant_id == u) db.blocks (λ r k. ground arith);
    lines_same =
        keep-keep_same
          (λ (r : TextLineMap). not (r.tenant_id == t && mem r.inode_id (doomed t i db)))
          (λ r. r.tenant_id == u) db.line_map (λ r k. ground arith);
    metadata_same =
        keep-keep_same
          (λ (r : TextFileMetadata). not (r.tenant_id == t && mem r.inode_id (doomed t i db)))
          (λ r. r.tenant_id == u) db.text_metadata (λ r k. ground arith);
    entries_same =
        keep-keep_same
          (λ (r : LayerEntry). not (r.tenant_id == t && mem r.inode_id (doomed t i db)))
          (λ r. r.tenant_id == u) db.entries (λ r k. ground arith);
  })
]

-- Nothing refers to this inode of this tenant.
pub record IsGone (t : TenantId) (i : InodeId) (db : Db) : Type 0 where
  pub no_row : get_inode t i db ≡ none
  pub no_block : find (λ (b : DataBlock). b.tenant_id == t && b.inode_id == i) db.blocks ≡ none
  pub no_line : find (λ (m : TextLineMap). m.tenant_id == t && m.inode_id == i) db.line_map ≡ none
  pub no_metadata :
      find (λ (m : TextFileMetadata). m.tenant_id == t && m.inode_id == i) db.text_metadata ≡ none
  pub no_entry : find (λ (e : LayerEntry). e.tenant_id == t && e.inode_id == i) db.entries ≡ none

self_doomed : (t : TenantId) (i : InodeId) (db : Db) → mem i (doomed t i db) ≡ true
self_doomed t i db = cascade-mem (length db.inodes) t i (i ∷ []) db.inodes (rw (eq_refl i) refl)

-- Where the test holds the row is that of the inode, which goes.
doomed_row :
    (t i r s : ℕ) (ds : List ℕ)
    → mem i ds ≡ true
    → (r == t && s == i) ≡ true
    → not (r == t && mem s ds) ≡ false
doomed_row t i r s ds h e =
    let same : s ≡ i = (==_iff s i).0 (ground arith) in
    let there = subst (λ k. mem k ds ≡ true) (sym same) h in ground arith

-- Deleting an inode that is there reports so, and afterwards neither its row nor a block, a line, a
-- text or a layer entry of it is left.
pub delete_inode-IsGone :
    (t : TenantId) (i : InodeId) (db : Db)
    → is_some (get_inode t i db) ≡ true
    → ((delete_inode t i db).0 ≡ true) × IsGone t i (delete_inode t i db).1
unfolding delete_inode get_inode
delete_inode-IsGone t i db h =
    let m = self_doomed t i db in
    rw h (
      refl,
      record {
        no_row =
            find-keep_gone _ (is_row t i) db.inodes
              (λ (r : Inode) k. doomed_row t i r.tenant_id r.inode_id (doomed t i db) m k);
        no_block =
            find-keep_gone _ _ db.blocks
              (λ (r : DataBlock) k. doomed_row t i r.tenant_id r.inode_id (doomed t i db) m k);
        no_line =
            find-keep_gone _ _ db.line_map
              (λ (r : TextLineMap) k. doomed_row t i r.tenant_id r.inode_id (doomed t i db) m k);
        no_metadata =
            find-keep_gone _ _ db.text_metadata (λ (r : TextFileMetadata) k.
              doomed_row t i r.tenant_id r.inode_id (doomed t i db) m k);
        no_entry =
            find-keep_gone _ _ db.entries
              (λ (r : LayerEntry) k. doomed_row t i r.tenant_id r.inode_id (doomed t i db) m k);
      },
    )
