-- ===== src/Layer/Cow/Hashed.antt =====
-- Blocks under the hashes of their contents, and what keeps them so.
use tarbox.Base.{
  ℕ, ◌<◌, ◌≡◌, ◌≢◌, refl, Bytes, true, Option, none, some, List, [], ◌∷◌, ◌++◌, map, All, is_utf8,
  ◌==◌, if◌then◌else◌, arith, Bool-cases, inl, inr,
}
use tarbox.Storage.Models.{BlockId, TextBlock, TextLineMap, Db}
use tarbox.Storage.Inodes.{release, count_down}
use tarbox.Layer.Cow.{Outside}

-- What is documented of the code outside: blake3 has no known collisions, the two hashes are
-- texts of different lengths (64 and 16 digits), and valid UTF-8 is decoded to itself.
pub record IsLawful (o : Outside) : Type 0 where
  pub blake3_injective : (a b : Bytes) → o.blake3 a ≡ o.blake3 b → a ≡ b
  pub hashes_differ : (a b : Bytes) → o.default_hash a ≢ o.blake3 b
  pub lossy_utf8 : (d : Bytes) → is_utf8 d ≡ true → o.lossy d ≡ d

-- The content of the block with this id.
abbrev pub line_of : BlockId → List TextBlock → Option Bytes
line_of k [] = none
line_of k (b ∷ bs) = let rest = line_of k bs in if b.block_id == k then some b.content else rest

-- Each stored block has the hash of its content and an id that was handed out, and its id finds
-- its content.
pub record IsHashed (o : Outside) (next : ℕ) (bs : List TextBlock) : Type 0 where
  pub hashes : All (λ (b : TextBlock). b.content_hash ≡ o.blake3 b.content) bs
  pub handed_out : All (λ (b : TextBlock). b.block_id < next) bs
  pub by_id : All (λ (b : TextBlock). line_of b.block_id bs ≡ some b.content) bs

-- Contents that are found by an id stay.
abbrev pub KeepsLines : List TextBlock → List TextBlock → Type 0
KeepsLines bs cs = (k : BlockId) (c : Bytes) → line_of k bs ≡ some c → line_of k cs ≡ some c

-- `db'` differs from `db` in its text blocks and in the ids handed out.
abbrev pub OnlyTextBlocks : Db → Db → Type 0
OnlyTextBlocks db db' = db' ≡ record db { text_blocks = db'.text_blocks; next_uuid = db'.next_uuid }

-- `id` names a block with this line after the step from `db` to `db'`, which loses nothing.
pub record IsStored (o : Outside) (db : Db) (line : Bytes) (id : BlockId) (db' : Db) : Type 0 where
  pub only : OnlyTextBlocks db db'
  pub keeps : KeepsLines db.text_blocks db'.text_blocks
  pub has : line_of id db'.text_blocks ≡ some line
  pub hashed : IsHashed o db'.next_uuid db'.text_blocks

pub line_of-append :
    (k : BlockId) (bs cs : List TextBlock) (c : Bytes)
    → line_of k bs ≡ some c
    → line_of k (bs ++ cs) ≡ some c
line_of-append k [] cs c h = cc
line_of-append k (b ∷ bs) cs c h = ground (arith, line_of-append k bs cs c)

pub line_of-snoc :
    (k next : ℕ) (bs : List TextBlock) (b : TextBlock)
    → All (λ (b : TextBlock). b.block_id < next) bs
    → b.block_id ≡ next
    → line_of next (bs ++ b ∷ []) ≡ some b.content
line_of-snoc k next [] b h e = ground arith
line_of-snoc k next (a ∷ bs) b h e = ground (arith, line_of-snoc k next bs b h.1 e)

-- A change of a block that leaves all but its count of references.
abbrev pub OnlyCounts : (TextBlock → TextBlock) → Type 0
OnlyCounts f =
    (b : TextBlock)
    → ((f b).block_id ≡ b.block_id)
      × ((f b).content ≡ b.content)
      × ((f b).content_hash ≡ b.content_hash)

line_of-map :
    (f : TextBlock → TextBlock)
    → OnlyCounts f
    → (k : BlockId) (bs : List TextBlock) → line_of k (map f bs) ≡ line_of k bs
line_of-map f h k [] = refl
line_of-map f h k (b ∷ bs) = rw ((h b).0, (h b).1, line_of-map f h k bs) refl

All-mapped {κ μ} :
    (P : TextBlock → Type κ) (Q : TextBlock → Type μ) (f : TextBlock → TextBlock)
    (bs : List TextBlock)
    → ((b : TextBlock) → P b → Q (f b))
    → All P bs
    → All Q (map f bs)
All-mapped P Q f [] g h = tt
All-mapped P Q f (b ∷ bs) g h = (g b h.0, All-mapped P Q f bs g h.1)

-- Counting references keeps the blocks under their hashes and ids.
pub IsHashed-counted :
    (o : Outside) (next : ℕ) (f : TextBlock → TextBlock) (bs : List TextBlock)
    → OnlyCounts f
    → IsHashed o next bs
    → IsHashed o next (map f bs)
IsHashed-counted o next f bs h v = record {
  hashes = All-mapped _ _ f bs (λ b p. rw ((h b).2, (h b).1) p) v.hashes;
  handed_out = All-mapped _ _ f bs (λ b p. rw (h b).0 p) v.handed_out;
  by_id =
      All-mapped _ _ f bs (λ b p. rw (line_of-map f h (f b).block_id bs, (h b).0, (h b).1) p)
        v.by_id;
}

count_down-OnlyCounts : (j : BlockId) → OnlyCounts (count_down j)
count_down-OnlyCounts j b = elim (Bool-cases (b.block_id == j)) [
  | inl e ↦ rw e (refl, refl, refl)
  | inr e ↦ rw e (refl, refl, refl)
]

pub IsHashed-release :
    (o : Outside) (next : ℕ) (ms : List TextLineMap) (bs : List TextBlock)
    → IsHashed o next bs
    → IsHashed o next (release ms bs)
IsHashed-release o next [] bs v = v
IsHashed-release o next (m ∷ ms) bs v =
    IsHashed-release o next ms (map (count_down m.block_id) bs)
      (IsHashed-counted o next (count_down m.block_id) bs (count_down-OnlyCounts m.block_id) v)
