-- ===== src/Layer/Cow/Binary.antt =====
-- Binary contents: cutting into blocks, storing and reading back.
use tarbox.Base.{
  ℕ, zero, suc, ◌+◌, ◌<◌, ◌≤◌, ◌≡◌, refl, ◌∙◌, Bytes, Bool, true, false, not, List, [], ◌∷◌, ◌++◌,
  length, drop, keep, any, All, is_some, ok, ◌==◌, arith, length-take, length-drop,
  take-append-drop, eq_refl, keep-append, any-keep, keep-not, length-snoc,
}
use mathlib.Core.List.{append_assoc, append-nil}
use tarbox.Storage.Models.{TenantId, InodeId, DataBlock, Db}
use tarbox.Storage.Inodes.{get_inode}
use tarbox.Storage.Blocks.{
  is_block_of, new_block, create_block, order_by_index, list_blocks, delete_blocks, concat_blocks,
}
use tarbox.Layer.Cow.{
  CowHandler, CowResult, chunks, chunks_from, block_size, create_blocks, binary_result,
  write_binary_file,
}

abbrev pub flatten : List Bytes → Bytes
flatten [] = []
flatten (c ∷ cs) = c ++ flatten cs

abbrev pub IsBlock : Bytes → Type 0
IsBlock c = (0 < length c) × (length c ≤ block_size)

chunks_from_lem :
    (fuel : ℕ) (d : Bytes)
    → length d ≤ fuel
    → (flatten (chunks_from fuel d) ≡ d) × All IsBlock (chunks_from fuel d)
unfolding chunks_from
chunks_from_lem zero [] h = (refl, tt)
chunks_from_lem zero (x ∷ xs) h = absurd (omega arith)
chunks_from_lem (suc f) [] h = (refl, tt)
chunks_from_lem (suc f) (x ∷ xs) h =
    let (e, a) =
      chunks_from_lem f (drop block_size (x ∷ xs))
        (omega (arith, length-drop block_size (x ∷ xs))) in
    (
      rw e (take-append-drop block_size (x ∷ xs)),
      (omega (arith, length-take block_size (x ∷ xs)), a),
    )

-- The blocks of a content, put together, are the content; each holds between 1 and 4096 bytes.
pub chunks-flatten : (d : Bytes) → (flatten (chunks d) ≡ d) × All IsBlock (chunks d)
unfolding chunks
chunks-flatten d = chunks_from_lem (length d) d (omega arith)

-- Rows with the indices `n`, `n + 1`, … and these contents.
abbrev Numbered : ℕ → List DataBlock → List Bytes → Type 0
Numbered n [] [] = Unit
Numbered n [] (c ∷ cs) = ⊥
Numbered n (b ∷ bs) [] = ⊥
Numbered n (b ∷ bs) (c ∷ cs) = (b.block_index ≡ n) × (b.block_data ≡ c) × Numbered (suc n) bs cs

Numbered-snoc :
    (n : ℕ) (bs : List DataBlock) (cs : List Bytes) (b : DataBlock)
    → Numbered n bs cs
    → b.block_index ≡ n + length cs
    → Numbered n (bs ++ b ∷ []) (cs ++ b.block_data ∷ [])
Numbered-snoc n [] [] b h e = (omega arith, refl, tt)
Numbered-snoc n [] (c ∷ cs) b h e = absurd h
Numbered-snoc n (a ∷ as') [] b h e = absurd h
Numbered-snoc n (a ∷ as') (c ∷ cs) b h e =
    (h.0, h.1, Numbered-snoc (suc n) as' cs b h.2 (omega arith))

Numbered-below :
    (n k : ℕ) (bs : List DataBlock) (cs : List Bytes)
    → Numbered n bs cs
    → n + length cs ≤ k
    → any (λ b. b.block_index == k) bs ≡ false
Numbered-below n k [] cs h l = refl
Numbered-below n k (b ∷ bs) [] h l = absurd h
Numbered-below n k (b ∷ bs) (c ∷ cs) h l = ground (arith, Numbered-below (suc n) k bs cs h.2)

Numbered-order :
    (n : ℕ) (bs : List DataBlock) (cs : List Bytes) → Numbered n bs cs → order_by_index bs ≡ bs
unfolding order_by_index
Numbered-order n [] cs h = refl
Numbered-order n (b ∷ []) cs h = refl
Numbered-order n (b ∷ c ∷ bs) [] h = absurd h
Numbered-order n (b ∷ c ∷ bs) (d ∷ []) h = absurd h.2
Numbered-order n (b ∷ c ∷ bs) (d ∷ e ∷ ds) h =
    rw (Numbered-order (suc n) (c ∷ bs) (e ∷ ds) h.2) (ground arith)

Numbered-concat :
    (n : ℕ) (bs : List DataBlock) (cs : List Bytes)
    → Numbered n bs cs
    → concat_blocks bs ≡ flatten cs
unfolding concat_blocks
Numbered-concat n [] [] h = refl
Numbered-concat n [] (c ∷ cs) h = absurd h
Numbered-concat n (b ∷ bs) [] h = absurd h
Numbered-concat n (b ∷ bs) (c ∷ cs) h = rw (h.1, Numbered-concat (suc n) bs cs h.2) refl

-- `db'` differs from `db` in its blocks and in the ids handed out.
abbrev pub OnlyBlocks : Db → Db → Type 0
OnlyBlocks db db' = db' ≡ record db { blocks = db'.blocks; next_uuid = db'.next_uuid }

module _ (t : TenantId) (i : InodeId) where
  abbrev Holds : Db → List Bytes → Type 0
  Holds db cs = Numbered 0 (keep (is_block_of t i) db.blocks) cs

  create_block-ok :
      (c : Bytes) (cs : List Bytes) (db : Db)
      → is_some (get_inode t i db) ≡ true
      → Holds db cs
      → create_block t i (length cs) c db ≡ (
        ok (new_block t i (length cs) c db),
        record db {
          blocks = db.blocks ++ new_block t i (length cs) c db ∷ [];
          next_uuid = suc db.next_uuid;
        },
      )
  unfolding create_block
  create_block-ok c cs db e h =
      rw
        (
          e,
          any-keep (is_block_of t i) (λ b. b.block_index == length cs) db.blocks,
          Numbered-below 0 (length cs) (keep (is_block_of t i) db.blocks) cs h (omega arith),
        )
        refl

  own_block :
      (k : ℕ) (c : Bytes) (db : Db)
      → keep (is_block_of t i) (new_block t i k c db ∷ []) ≡ new_block t i k c db ∷ []
  own_block k c db = rw (eq_refl t, eq_refl i) refl

  abbrev after_block : Bytes → List Bytes → Db → Db
  after_block c cs db = record db {
    blocks = db.blocks ++ new_block t i (length cs) c db ∷ [];
    next_uuid = suc db.next_uuid;
  }

  append_block :
      (c : Bytes) (cs : List Bytes) (db : Db)
      → Holds db cs
      → Holds (after_block c cs db) (cs ++ c ∷ [])
  append_block c cs db h =
      rw (keep-append (is_block_of t i) db.blocks, own_block (length cs) c db)
        (Numbered-snoc 0 (keep (is_block_of t i) db.blocks) cs (new_block t i (length cs) c db) h
          (omega arith))

  create_blocks-ok :
      (new done : List Bytes) (db : Db)
      → is_some (get_inode t i db) ≡ true
      → Holds db done
      → (db' : Db) × (create_blocks t i (length done) new db ≡ (ok tt, db'))
        × Holds db' (done ++ new)
        × OnlyBlocks db db'
  unfolding create_blocks
  create_blocks-ok [] done db e h = (db, refl, rw append-nil h, refl)
  create_blocks-ok (c ∷ cs) done db e h =
      let e' : is_some (get_inode t i (after_block c done db)) ≡ true = unfold get_inode in e in
      let (db', r, h', o) =
        create_blocks-ok cs (done ++ c ∷ []) (after_block c done db) e'
          (append_block c done db h) in
      (
        db',
        rw (create_block-ok c done db e h) (rw (length-snoc done c) at r),
        rw append_assoc at h',
        o,
      )

-- A binary file that is written over an inode that is there reads back as it was written, whatever
-- blocks the inode had, and the write changes no table but that of the blocks.
pub write_binary_file-read :
    (h : CowHandler) (i : InodeId) (d : Bytes) (is_new : Bool) (old_size : ℕ) (db : Db)
    → is_some (get_inode h.tenant_id i db) ≡ true
    → (r : CowResult) × (db' : Db) × (write_binary_file h i d is_new old_size db ≡ (ok r, db'))
      × (concat_blocks (list_blocks h.tenant_id i db') ≡ d)
      × OnlyBlocks db db'
unfolding write_binary_file list_blocks delete_blocks
write_binary_file-read h i d is_new old_size db e =
    let t = h.tenant_id in
    let emptied : Db = record db { blocks = keep (λ b. not (is_block_of t i b)) db.blocks } in
    let e' : is_some (get_inode t i emptied) ≡ true = unfold get_inode in e in
    let none_left : Holds t i emptied [] = rw (keep-not (is_block_of t i) db.blocks) tt in
    let (db', r, n, o) = create_blocks-ok t i (chunks d) [] emptied e' none_left in
    let rows = keep (is_block_of t i) db'.blocks in
    (
      binary_result d is_new old_size,
      db',
      rw r refl,
      rw (Numbered-order 0 rows (chunks d) n)
          (Numbered-concat 0 rows (chunks d) n ∙ (chunks-flatten d).0),
      o,
    )
