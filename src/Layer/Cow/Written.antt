-- ===== src/Layer/Cow/Written.antt =====
-- The map from line numbers to blocks: the rows that a write inserts, in the order it reads them.
use tarbox.Base.{
  ℕ, suc, ◌+◌, ◌≤◌, ◌≡◌, refl, ◌∙◌, Bytes, true, false, some, List, [], ◌∷◌, ◌++◌, map, length,
  find, any, keep, ◌==◌, arith, Bool-cases, inl, inr, eq_refl, is_some, ok, any-keep, keep-append,
  length-snoc,
}
use mathlib.Core.List.{append_assoc, append-nil}
use tarbox.Storage.Models.{TenantId, InodeId, LayerId, BlockId, TextBlock, TextLineMap, Db}
use tarbox.Storage.Texts.{
  get_block, get_metadata, add_reference, is_mapping_of, new_mapping, insert_mapping,
  insert_mappings, create_line_mappings, order_by_line, get_line_mappings,
}
use tarbox.Layer.Cow.{mapped_lines}
use tarbox.Layer.Cow.Hashed.{line_of}
use tarbox.Layer.Cow.Stored.{Maps}

abbrev pub Numbers : ℕ → List (ℕ × BlockId) → Type 0
Numbers n [] = Unit
Numbers n (m ∷ ms) = (m.0 ≡ n) × Numbers (suc n) ms

Maps-Numbers :
    (n : ℕ) (ms : List (ℕ × BlockId)) (ls : List Bytes) (bs : List TextBlock)
    → Maps n ms ls bs
    → Numbers n ms
Maps-Numbers n [] ls bs h = tt
Maps-Numbers n (m ∷ ms) [] bs h = absurd h
Maps-Numbers n (m ∷ ms) (l ∷ ls) bs h = (h.0, Maps-Numbers (suc n) ms ls bs h.2)

line_of-count_up :
    (k j : BlockId) (bs : List TextBlock) → line_of k (add_reference j bs) ≡ line_of k bs
line_of-count_up k j [] = refl
line_of-count_up k j (b ∷ bs) = ground (arith, line_of-count_up k j bs)

Maps-count_up :
    (n j : ℕ) (ms : List (ℕ × BlockId)) (ls : List Bytes) (bs : List TextBlock)
    → Maps n ms ls bs
    → Maps n ms ls (add_reference j bs)
Maps-count_up n j [] [] bs h = tt
Maps-count_up n j [] (l ∷ ls) bs h = h
Maps-count_up n j (m ∷ ms) [] bs h = h
Maps-count_up n j (m ∷ ms) (l ∷ ls) bs h =
    (h.0, line_of-count_up m.1 j bs ∙ h.1, Maps-count_up (suc n) j ms ls bs h.2)

line_of-found :
    (k : BlockId) (bs : List TextBlock) (c : Bytes)
    → line_of k bs ≡ some c
    → (b : TextBlock) × (find (λ (r : TextBlock). r.block_id == k) bs ≡ some b) × (b.content ≡ c)
line_of-found k [] c h = cc
line_of-found k (b ∷ bs) c h = elim (Bool-cases (b.block_id == k)) [
  | inl e ↦ (b, rw e refl, cc (rw e at h))
  | inr e ↦ let (r, p, q) = line_of-found k bs c (rw e at h) in (r, rw e p, q)
]

module _ (t : TenantId) (i : InodeId) (l : LayerId) where
  mapped_lines-some :
      (m : TextLineMap) (ms : List TextLineMap) (db : Db) (b : TextBlock)
      → find (λ (r : TextBlock). r.block_id == m.block_id) db.text_blocks ≡ some b
      → mapped_lines (m ∷ ms) db ≡ b.content ∷ mapped_lines ms db
  unfolding mapped_lines get_block
  mapped_lines-some m ms db b p = rw (mapped_lines, p) refl

  -- The lines that the mappings name, in their order.
  pub mapped_lines-Maps :
      (n : ℕ) (ms : List (ℕ × BlockId)) (ls : List Bytes) (db : Db)
      → Maps n ms ls db.text_blocks
      → mapped_lines (map (new_mapping t i l) ms) db ≡ ls
  unfolding mapped_lines get_block
  mapped_lines-Maps n [] [] db h = refl
  mapped_lines-Maps n [] (x ∷ ls) db h = absurd h
  mapped_lines-Maps n (m ∷ ms) [] db h = absurd h
  mapped_lines-Maps n (m ∷ ms) (x ∷ ls) db h =
      let (b, p, q) = line_of-found m.1 db.text_blocks x h.1 in
      rw
        (
          mapped_lines-some (new_mapping t i l m) (map (new_mapping t i l) ms) db b p,
          q,
          mapped_lines-Maps (suc n) ms ls db h.2,
        )
        refl

  pub Numbers-order :
      (n : ℕ) (ms : List (ℕ × BlockId))
      → Numbers n ms
      → order_by_line (map (new_mapping t i l) ms) ≡ map (new_mapping t i l) ms
  unfolding order_by_line
  Numbers-order n [] h = refl
  Numbers-order n (m ∷ []) h = refl
  Numbers-order n (m ∷ k ∷ ms) h = rw (Numbers-order (suc n) (k ∷ ms) h.1) (ground arith)

  Numbers-below :
      (n k : ℕ) (ms : List (ℕ × BlockId))
      → Numbers n ms
      → n + length ms ≤ k
      → any (λ r. r.line_number == k) (map (new_mapping t i l) ms) ≡ false
  Numbers-below n k [] h le = refl
  Numbers-below n k (m ∷ ms) h le = ground (arith, Numbers-below (suc n) k ms h.1)

  own_mapping :
      (m : ℕ × BlockId)
      → keep (is_mapping_of t i l) (new_mapping t i l m ∷ []) ≡ new_mapping t i l m ∷ []
  own_mapping m = rw (eq_refl t, eq_refl i, eq_refl l) refl

  -- The rows of this file in this layer are these.
  abbrev pub HoldsMap : Db → List (ℕ × BlockId) → Type 0
  HoldsMap db ms = keep (is_mapping_of t i l) db.line_map ≡ map (new_mapping t i l) ms

  abbrev after_mapping : ℕ × BlockId → Db → Db
  after_mapping m db = record db {
    line_map = db.line_map ++ new_mapping t i l m ∷ [];
    text_blocks = add_reference m.1 db.text_blocks;
  }

  Numbers-snoc :
      (n : ℕ) (ms : List (ℕ × BlockId)) (m : ℕ × BlockId)
      → Numbers n ms
      → m.0 ≡ n + length ms
      → Numbers n (ms ++ m ∷ [])
  Numbers-snoc n [] m h e = (omega arith, tt)
  Numbers-snoc n (k ∷ ms) m h e = (h.0, Numbers-snoc (suc n) ms m h.1 (omega arith))

  insert_mapping-ok :
      (m : ℕ × BlockId) (done : List (ℕ × BlockId)) (line : Bytes) (db : Db)
      → is_some (get_metadata t i l db) ≡ true
      → HoldsMap db done
      → Numbers 0 done
      → m.0 ≡ length done
      → line_of m.1 db.text_blocks ≡ some line
      → insert_mapping (new_mapping t i l m) db ≡ ok (after_mapping m db)
  unfolding get_block
  insert_mapping-ok m done line db e h n k b =
      let (r, p, _) = line_of-found m.1 db.text_blocks line b in
      rw
        (
          e,
          p,
          any-keep (is_mapping_of t i l) (λ r. r.line_number == m.0) db.line_map,
          h,
          Numbers-below 0 m.0 done n (omega arith),
        )
        refl

  map-snoc :
      (ms : List (ℕ × BlockId)) (m : ℕ × BlockId)
      → map (new_mapping t i l) (ms ++ m ∷ [])
        ≡ map (new_mapping t i l) ms ++ new_mapping t i l m ∷ []
  map-snoc [] m = refl
  map-snoc (k ∷ ms) m = rw (map-snoc ms m) refl

  after_mapping-HoldsMap :
      (m : ℕ × BlockId) (done : List (ℕ × BlockId)) (db : Db)
      → HoldsMap db done
      → HoldsMap (after_mapping m db) (done ++ m ∷ [])
  after_mapping-HoldsMap m done db h =
      rw (keep-append (is_mapping_of t i l) db.line_map, own_mapping m, h, map-snoc done m) refl

  insert_mappings-step :
      (m : ℕ × BlockId) (ms : List (ℕ × BlockId)) (db db' : Db)
      → insert_mapping (new_mapping t i l m) db ≡ ok db'
      → insert_mappings t i l (m ∷ ms) db ≡ insert_mappings t i l ms db'
  insert_mappings-step m ms db db' e = rw (insert_mappings, e) refl

  insert_mappings-ok :
      (ms done : List (ℕ × BlockId)) (ls : List Bytes) (db : Db)
      → is_some (get_metadata t i l db) ≡ true
      → HoldsMap db done
      → Numbers 0 done
      → Maps (length done) ms ls db.text_blocks
      → (db' : Db) × (insert_mappings t i l ms db ≡ ok db')
        × HoldsMap db' (done ++ ms)
        × ((k : BlockId) → line_of k db'.text_blocks ≡ line_of k db.text_blocks)
        × (db' ≡ record db { line_map = db'.line_map; text_blocks = db'.text_blocks })
  insert_mappings-ok [] done ls db e h n m = (db, refl, rw append-nil h, λ k. refl, refl)
  insert_mappings-ok (m ∷ ms) done [] db e h n p = absurd p
  insert_mappings-ok (m ∷ ms) done (x ∷ ls) db e h n p =
      let e' : is_some (get_metadata t i l (after_mapping m db)) ≡ true =
        unfold get_metadata in e in
      let p' : Maps (length (done ++ m ∷ [])) ms ls (add_reference m.1 db.text_blocks) =
        rw (length-snoc done m) (Maps-count_up (suc (length done)) m.1 ms ls db.text_blocks p.2) in
      let (db', r, h', k, o) =
        insert_mappings-ok ms (done ++ m ∷ []) ls (after_mapping m db) e'
          (after_mapping-HoldsMap m done db h) (Numbers-snoc 0 done m n (omega (arith, p.0))) p' in
      (
        db',
        insert_mappings-step m ms db (after_mapping m db)
              (insert_mapping-ok m done x db e h n p.0 p.1)
            ∙ r,
        rw append_assoc at h',
        λ j. k j ∙ line_of-count_up j m.1 db.text_blocks,
        o,
      )

  Maps-eq :
      (n : ℕ) (ms : List (ℕ × BlockId)) (ls : List Bytes) (bs cs : List TextBlock)
      → ((k : BlockId) → line_of k cs ≡ line_of k bs)
      → Maps n ms ls bs
      → Maps n ms ls cs
  Maps-eq n [] [] bs cs e h = tt
  Maps-eq n [] (x ∷ ls) bs cs e h = h
  Maps-eq n (m ∷ ms) [] bs cs e h = h
  Maps-eq n (m ∷ ms) (x ∷ ls) bs cs e h = (h.0, e m.1 ∙ h.1, Maps-eq (suc n) ms ls bs cs e h.2)

  -- Mappings that name the lines of a file without mappings are all inserted, and what is read by
  -- them is those lines.
  pub create_line_mappings-read :
      (ms : List (ℕ × BlockId)) (ls : List Bytes) (db : Db)
      → is_some (get_metadata t i l db) ≡ true
      → HoldsMap db []
      → Maps 0 ms ls db.text_blocks
      → (db' : Db) × (create_line_mappings t i l ms db ≡ (ok tt, db'))
        × (mapped_lines (get_line_mappings t i l db') db' ≡ ls)
        × (db' ≡ record db { line_map = db'.line_map; text_blocks = db'.text_blocks })
  unfolding create_line_mappings get_line_mappings
  create_line_mappings-read ms ls db e h m =
      let (db', r, h', k, o) = insert_mappings-ok ms [] ls db e h tt m in
      (
        db',
        rw (create_line_mappings, r) refl,
        rw (h', Numbers-order 0 ms (Maps-Numbers 0 ms ls db.text_blocks m))
            (mapped_lines-Maps 0 ms ls db' (Maps-eq 0 ms ls db.text_blocks db'.text_blocks k m)),
        o,
      )
