-- ===== src/Wasi/Adapter/Reading.antt =====
-- Reading a file to its end, buffer by buffer.
use tarbox.Base.{
  ℕ, zero, suc, ◌+◌, ◌-◌, min, ◌<◌, ◌≡◌, refl, sym, ap, ◌∙◌, Bytes, true, false, [], ◌∷◌, ◌++◌,
  length, take, drop, take-append-drop, length-take, length-drop, drop_beyond, drop-drop, Result,
  ok, err, leb, leb→le, arith, eq_refl, Bool-cases, inl, inr,
}
use tarbox.Storage.Models.{Db}
use tarbox.Fs.Operations.{FileSystem, read_file}
use tarbox.Wasi.Error.{WasiError}
use tarbox.Wasi.FdTable.{FileDescriptor, can_read, u64_mod, FdTable, get, update}
use tarbox.Wasi.FdTable.Laws.{lookup-insert}
use tarbox.Wasi.Adapter.{advance_by, read_at, fd_read}

-- What a read gave and what comes after it; an error or an empty read is the end.
abbrev pub gather : Result WasiError Bytes × FdTable → (FdTable → Bytes) → Bytes
gather (err e, table) next = []
gather (ok [], table) next = []
gather (ok (x ∷ xs), table) next = (x ∷ xs) ++ next table

-- A guest that reads until a read gives nothing, `fuel` times at most.
unfoldable pub read_on : ℕ → FileSystem → ℕ → ℕ → Db → FdTable → Bytes
read_on zero fs fd size db table = []
read_on (suc fuel) fs fd size db table =
    gather (fd_read fs fd size db table) λ table'. read_on fuel fs fd size db table'

gather-more :
    (c : Bytes) (table : FdTable) (next : FdTable → Bytes)
    → 0 < length c
    → gather (ok c, table) next ≡ c ++ next table
gather-more [] table next h = absurd (omega arith)
gather-more (x ∷ xs) table next h = refl

get-update : (table : FdTable) (fd : ℕ) (d : FileDescriptor) → get (update table fd d) fd ≡ ok d
unfolding get update
get-update table fd d = rw (lookup-insert fd fd d table.fds, eq_refl fd) refl

module _ (fs : FileSystem) (fd size : ℕ) (db : Db) (content : Bytes) (room : 0 < size)
    (small : length content < u64_mod) where
  -- The descriptor is open for reading, on a file with this content.
  pub record IsReadable (d : FileDescriptor) (table : FdTable) : Type 0 where
    pub open_at : get table fd ≡ ok d
    pub allowed : can_read d ≡ true
    pub no_directory : d.is_dir ≡ false
    pub holds_content : read_file fs d.path db ≡ ok content

  fd_read-read_at :
      (d : FileDescriptor) (table : FdTable)
      → IsReadable d table
      → fd_read fs fd size db table ≡ read_at fd d size content table
  unfolding fd_read
  fd_read-read_at d table r =
      rw (fd_read, r.open_at, r.allowed, r.no_directory, r.holds_content) refl

  abbrev chunk_size : ℕ → ℕ
  chunk_size p = min (p + size) (length content) - p

  -- Reads of any size but 0, from a position on, put together give the content from there on; as
  -- many reads as there are bytes left, and one that finds the end, are enough.
  pub read_on-drop :
      (fuel : ℕ) (d : FileDescriptor) (table : FdTable)
      → IsReadable d table
      → length content - d.position < fuel
      → read_on fuel fs fd size db table ≡ drop d.position content
  unfolding read_on read_at
  read_on-drop zero d table r f = absurd (omega arith)
  read_on-drop (suc fuel) d table r f = elim (Bool-cases (leb (length content) d.position)) [
    | inl e ↦
        rw (fd_read-read_at d table r, e)
          (sym (drop_beyond d.position content (leb→le (length content) d.position e)))
    | inr e ↦
        let p = d.position in
        let n = chunk_size p in
        let before : p < length content = not_beyond p e in
        let d' = advance_by n d in
        let table' = update table fd d' in
        let at : d'.position ≡ p + n = omega (arith, before, small) in
        let r' : IsReadable d' table' = record {
          open_at = get-update table fd d';
          allowed = r.allowed;
          no_directory = r.no_directory;
          holds_content = r.holds_content;
        } in
        let c = take n (drop p content) in
        let more : 0 < length c =
          omega (arith, length-take n (drop p content), length-drop p content, before, room) in
        let rest = read_on-drop fuel d' table' r' (omega (arith, at, before, room, f)) in
        rw (fd_read-read_at d table r, e)
          (gather-more c table' (λ t. read_on fuel fs fd size db t) more
            ∙ ap (λ t. c ++ t) (rest ∙ ap (λ k. drop k content) at ∙ sym (drop-drop p n content))
            ∙ take-append-drop n (drop p content))
  ]
    where
      not_beyond : (p : ℕ) → leb (length content) p ≡ false → p < length content
      not_beyond p e = ground arith
