-- ===== src/Layer/Cow/Stored.antt =====
-- Lines as deduplicated blocks: every line is stored once, and its block has its content.
use tarbox.Base.{
  ℕ, suc, ◌≡◌, refl, sym, ap, ◌∙◌, Bytes, bytes_eq, bytes_eq_iff, bytes_eq_refl, bytes_ne, none,
  some, List, [], ◌∷◌, ◌++◌, find, All-append, All-map, arith, Option-cases, inl, inr,
  find-append_none, find-none, find-All, find-holds,
}
use tarbox.Storage.Models.{BlockId, TextBlock, Db}
use tarbox.Storage.Texts.{get_block_by_hash, new_text_block, create_text_block}
use tarbox.Layer.Cow.{Outside, store_line, store_lines}
use tarbox.Layer.Cow.Hashed.{
  IsLawful, line_of, IsHashed, KeepsLines, OnlyTextBlocks, IsStored, line_of-append, line_of-snoc,
}

module _ (o : Outside) (law : IsLawful o) where
  -- The lookup by `compute_text_hash` finds no line, since every block has the blake3 hash of its
  -- content.
  pub default_hash_misses :
      (line : Bytes) (db : Db)
      → IsHashed o db.next_uuid db.text_blocks
      → get_block_by_hash (o.default_hash line) db ≡ none
  unfolding get_block_by_hash
  default_hash_misses line db v =
      find-none (λ (r : TextBlock). bytes_eq r.content_hash (o.default_hash line)) _ db.text_blocks
        (λ b e.
          bytes_ne b.content_hash (o.default_hash line)
            (λ p. law.hashes_differ line b.content (sym p ∙ e)))
        v.hashes

  found_by_hash :
      (line : Bytes) (db : Db) (b : TextBlock)
      → IsHashed o db.next_uuid db.text_blocks
      → get_block_by_hash (o.blake3 line) db ≡ some b
      → line_of b.block_id db.text_blocks ≡ some line
  unfolding get_block_by_hash
  found_by_hash line db b v e =
      let h =
        find-All _ (λ (b : TextBlock). b.content_hash ≡ o.blake3 b.content) db.text_blocks b
          v.hashes e in
      let i =
        find-All _ (λ (b : TextBlock). line_of b.block_id db.text_blocks ≡ some b.content)
          db.text_blocks b v.by_id e in
      let k =
        find-holds (λ (r : TextBlock). bytes_eq r.content_hash (o.blake3 line)) db.text_blocks b
          e in
      let same =
        law.blake3_injective b.content line
          (sym h ∙ (bytes_eq_iff b.content_hash (o.blake3 line)).0 k) in
      i ∙ ap some same

  append-IsHashed :
      (line encoding : Bytes) (db : Db)
      → IsHashed o db.next_uuid db.text_blocks
      → IsHashed o
          (suc db.next_uuid)
          (db.text_blocks ++ new_text_block (o.blake3 line) line encoding db ∷ [])
  append-IsHashed line encoding db v =
      let new = new_text_block (o.blake3 line) line encoding db in
      let bs = db.text_blocks in
      record {
        hashes = All-append _ bs (new ∷ []) v.hashes (refl, tt);
        handed_out =
            All-append _ bs (new ∷ []) (All-map bs (λ b h. omega arith) v.handed_out)
              (omega arith, tt);
        by_id =
            All-append _ bs (new ∷ [])
              (All-map bs (λ b. line_of-append b.block_id bs (new ∷ []) b.content) v.by_id)
              (line_of-snoc 0 db.next_uuid bs new v.handed_out refl, tt);
      }

  pub create_text_block-IsStored :
      (line encoding : Bytes) (db : Db)
      → IsHashed o db.next_uuid db.text_blocks
      → IsStored o db line
          (create_text_block o.blake3 line encoding db).0.block_id
          (create_text_block o.blake3 line encoding db).1
  unfolding create_text_block
  create_text_block-IsStored line encoding db v =
      elim (Option-cases (get_block_by_hash (o.blake3 line) db)) [
        | inl e ↦
            rw (create_text_block, e)
              (record {
                only = refl;
                keeps = λ k c. line_of-append k db.text_blocks _ c;
                has =
                    line_of-snoc 0 db.next_uuid db.text_blocks
                      (new_text_block (o.blake3 line) line encoding db) v.handed_out refl;
                hashed = append-IsHashed line encoding db v;
              })
        | inr (b, e) ↦
            rw (create_text_block, e)
              (record {
                only = refl;
                keeps = λ k c h. h;
                has = found_by_hash line db b v e;
                hashed = v;
              })
      ]

  -- Storing a line gives a block with that line, keeps every other line, and goes on to hold each
  -- block under its hash and its id.
  pub store_line-IsStored :
      (line encoding : Bytes) (db : Db)
      → IsHashed o db.next_uuid db.text_blocks
      → IsStored o db line (store_line o encoding line db).0 (store_line o encoding line db).1
  unfolding store_line
  store_line-IsStored line encoding db v =
      rw (store_line, default_hash_misses line db v) (create_text_block-IsStored line encoding db v)

-- The mappings number the lines from `n` on, and each names a block that has its line.
abbrev pub Maps : ℕ → List (ℕ × BlockId) → List Bytes → List TextBlock → Type 0
Maps n [] [] bs = Unit
Maps n [] (l ∷ ls) bs = ⊥
Maps n (m ∷ ms) [] bs = ⊥
Maps n (m ∷ ms) (l ∷ ls) bs = (m.0 ≡ n) × (line_of m.1 bs ≡ some l) × Maps (suc n) ms ls bs

-- What holds of the lines after they are stored.
pub record AreStored (o : Outside) (db : Db) (n : ℕ) (ls : List Bytes) (ms : List (ℕ × BlockId))
    (db' : Db) : Type 0 where
  pub only : OnlyTextBlocks db db'
  pub keeps : KeepsLines db.text_blocks db'.text_blocks
  pub maps : Maps n ms ls db'.text_blocks
  pub hashed : IsHashed o db'.next_uuid db'.text_blocks

OnlyTextBlocks-trans : (a b c : Db) → OnlyTextBlocks a b → OnlyTextBlocks b c → OnlyTextBlocks a c
OnlyTextBlocks-trans a b c p q =
    q ∙ ap (λ (x : Db). record x { text_blocks = c.text_blocks; next_uuid = c.next_uuid }) p

module _ (o : Outside) (law : IsLawful o) where
  -- If every block is found by the hash of its content and by its id, this stays so while the lines
  -- of a file are stored, no line that was stored is lost, the mappings number the lines in their
  -- order, and each names a block that has its line.
  pub store_lines-AreStored :
      (encoding : Bytes) (n : ℕ) (ls : List Bytes) (db : Db)
      → IsHashed o db.next_uuid db.text_blocks
      → AreStored o db n ls (store_lines o encoding n ls db).0 (store_lines o encoding n ls db).1
  unfolding store_lines
  store_lines-AreStored encoding n [] db v = record {
    only = refl;
    keeps = λ k c h. h;
    maps = tt;
    hashed = v;
  }
  store_lines-AreStored encoding n (l ∷ ls) db v =
      let one = store_line-IsStored o law l encoding db v in
      let db' = (store_line o encoding l db).1 in
      let rest = store_lines-AreStored encoding (suc n) ls db' one.hashed in
      record {
        only =
            OnlyTextBlocks-trans db db' (store_lines o encoding (suc n) ls db').1 one.only
              rest.only;
        keeps = λ k c h. rest.keeps k c (one.keeps k c h);
        maps = (refl, rest.keeps (store_line o encoding l db).0 l one.has, rest.maps);
        hashed = rest.hashed;
      }

  store_line-found :
      (line encoding : Bytes) (db : Db) (b : TextBlock)
      → IsHashed o db.next_uuid db.text_blocks
      → get_block_by_hash (o.blake3 line) db ≡ some b
      → store_line o encoding line db ≡ (b.block_id, db)
  unfolding store_line create_text_block
  store_line-found line encoding db b v e =
      rw (store_line, default_hash_misses o law line db v, create_text_block, e) refl

  found_new :
      (line encoding : Bytes) (db : Db)
      → get_block_by_hash (o.blake3 line) db ≡ none
      → find
          (λ (r : TextBlock). bytes_eq r.content_hash (o.blake3 line))
          (db.text_blocks ++ new_text_block (o.blake3 line) line encoding db ∷ [])
        ≡ some (new_text_block (o.blake3 line) line encoding db)
  unfolding get_block_by_hash
  found_new line encoding db e =
      rw
        (
          find-append_none (λ (r : TextBlock). bytes_eq r.content_hash (o.blake3 line))
              db.text_blocks (new_text_block (o.blake3 line) line encoding db ∷ []) e,
          bytes_eq_refl (o.blake3 line),
        )
        refl

  found_after :
      (line encoding : Bytes) (db : Db)
      → IsHashed o db.next_uuid db.text_blocks
      → (b : TextBlock) × (get_block_by_hash (o.blake3 line) (store_line o encoding line db).1
          ≡ some b)
        × (b.block_id ≡ (store_line o encoding line db).0)
  unfolding store_line create_text_block
  found_after line encoding db v = elim (Option-cases (get_block_by_hash (o.blake3 line) db)) [
    | inl e ↦
        let new = new_text_block (o.blake3 line) line encoding db in
        (
          new,
          rw (store_line, default_hash_misses o law line db v, create_text_block, e)
              (unfold get_block_by_hash in found_new line encoding db e),
          rw (store_line, default_hash_misses o law line db v, create_text_block, e) refl,
        )
    | inr (b, e) ↦ (
      b,
      rw (store_line, default_hash_misses o law line db v, create_text_block, e) e,
      rw (store_line, default_hash_misses o law line db v, create_text_block, e) refl,
    )
  ]

  -- If every block is found by the hash of its content and by its id, storing a line a second time,
  -- whatever the encoding says, names the same block and adds nothing.
  pub store_line-twice :
      (line encoding again : Bytes) (db : Db)
      → IsHashed o db.next_uuid db.text_blocks
      → store_line o again line (store_line o encoding line db).1 ≡ store_line o encoding line db
  store_line-twice line encoding again db v =
      let stored = store_line-IsStored o law line encoding db v in
      let (b, e, i) = found_after line encoding db v in
      rw (store_line-found line again (store_line o encoding line db).1 b stored.hashed e, i) refl
