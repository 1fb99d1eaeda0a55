-- ===== src/Fuse/Backend/Slices.antt =====
-- Reads of parts of a file, put together.
use tarbox.Base.{
  ℕ, ◌+◌, ◌-◌, ◌%◌, min, ◌<◌, ◌≡◌, refl, sym, ap, ◌∙◌, Bytes, false, [], ◌++◌, length, take, drop,
  drop_beyond, drop-drop, take-nil, take-add, take-min, length-drop, ok, err, leb, leb→le, arith,
  Bool-cases, inl, inr, if◌then◌else◌,
}
use tarbox.Storage.Models.{TenantId, Db}
use tarbox.Wasi.FdTable.{u64_mod}
use tarbox.Layer.Hooks.{is_hook_path}
use tarbox.Layer.Hooks.Reading.{handle_read}
use tarbox.Fs.Operations
use tarbox.Fuse.Interface.{FsResult}
use tarbox.Fuse.Backend.{Outside, slice, sliced, hook_bytes, then_ok}
use tarbox.Fuse.Backend.Calls.{read_file, with_fs}

-- The bytes from `offset` on, `size` of them at most.
abbrev pub part : ℕ → ℕ → Bytes → Bytes
part offset size d = take size (drop offset d)

slice-part :
    (offset size : ℕ) (d : Bytes)
    → offset + size < u64_mod
    → slice offset size d ≡ part offset size d
slice-part offset size d room = elim (Bool-cases (leb (length d) offset)) [
  | inl e ↦
      rw e
        (sym (ap (take size) (drop_beyond offset d (leb→le (length d) offset e)) ∙ take-nil size))
  | inr e ↦
      let n : min ((offset + size) % u64_mod) (length d) - offset ≡ min size (length d - offset) =
        omega (arith, above e) in
      rw e (
        ap (λ k. take k (drop offset d)) n
        ∙ take-min size (length d - offset) (drop offset d) (omega (arith, length-drop offset d)))
]
  where
    above : leb (length d) offset ≡ false → offset < length d
    above e = ground arith

part-append :
    (offset a b : ℕ) (d : Bytes) → part offset (a + b) d ≡ part offset a d ++ part (offset + a) b d
part-append offset a b d =
    take-add a b (drop offset d)
    ∙ ap (λ r. take a (drop offset d) ++ take b r) (drop-drop offset a d)

abbrev bytes_of : FsResult Bytes → Bytes
bytes_of (ok d) = d
bytes_of (err e) = []

module _ (o : Outside) (t : TenantId) (path : Bytes) (db : Db) where
  -- The whole content, of a virtual file or of one in the database.
  whole : FsResult Bytes × Db
  whole =
      if is_hook_path path
      then (hook_bytes (handle_read o.hooks t db path), db)
      else with_fs o t db (λ fs db'. (Operations.read_file fs path db', db'))

  abbrev cut : ℕ → ℕ → FsResult Bytes × Db → FsResult Bytes × Db
  cut offset size (ok d, db') = (ok (slice offset size d), db')
  cut offset size (err e, db') = (err e, db')

  cut-sliced :
      (offset size : ℕ) (r : FsResult Bytes) → (sliced offset size r, db) ≡ cut offset size (r, db)
  cut-sliced offset size (ok d) = refl
  cut-sliced offset size (err e) = refl

  cut-then_ok :
      (offset size : ℕ) (r : FsResult Bytes × Db)
      → then_ok r (λ d db'. (ok (slice offset size d), db')) ≡ cut offset size r
  cut-then_ok offset size (ok d, db') = refl
  cut-then_ok offset size (err e, db') = refl

  read_file-cut : (offset size : ℕ) → read_file o t path offset size db ≡ cut offset size whole
  unfolding read_file whole
  read_file-cut offset size = elim (Bool-cases (is_hook_path path)) [
    | inl e ↦ rw e (cut-sliced offset size (hook_bytes (handle_read o.hooks t db path)))
    | inr e ↦ rw e (
        cut-then_ok offset size
          (with_fs o t db (λ fs db'. (Operations.read_file fs path db', db'))))
  ]

  cut-append :
      (offset a b : ℕ) (x y : Bytes) (db1 db2 : Db) (r : FsResult Bytes × Db)
      → offset + a + b < u64_mod
      → cut offset a r ≡ (ok x, db1)
      → cut (offset + a) b r ≡ (ok y, db2)
      → cut offset (a + b) r ≡ (ok (x ++ y), db1)
  cut-append offset a b x y db1 db2 (err e, db') room h k = cc
  cut-append offset a b x y db1 db2 (ok d, db') room h k =
      let first : part offset a d ≡ x =
        sym (slice-part offset a d (omega arith)) ∙ ap (λ r. bytes_of r.0) h in
      let second : part (offset + a) b d ≡ y =
        sym (slice-part (offset + a) b d (omega arith)) ∙ ap (λ r. bytes_of r.0) k in
      let joined : slice offset (a + b) d ≡ x ++ y =
        slice-part offset (a + b) d (omega arith)
        ∙ part-append offset a b d
        ∙ ap (λ r. r ++ part (offset + a) b d) first
        ∙ ap (λ r. x ++ r) second in
      λ i. (ok (joined i), (h i).1)

  -- Two reads of a path, the second from where the first ends, give together what one read of both
  -- sizes gives, of a virtual file as of one in the database, if no sum is beyond 2^64.
  pub read_file-consecutive :
      (offset a b : ℕ) (x y : Bytes) (db1 db2 : Db)
      → offset + a + b < u64_mod
      → read_file o t path offset a db ≡ (ok x, db1)
      → read_file o t path (offset + a) b db ≡ (ok y, db2)
      → read_file o t path offset (a + b) db ≡ (ok (x ++ y), db1)
  read_file-consecutive offset a b x y db1 db2 room h k =
      read_file-cut offset (a + b)
      ∙ cut-append offset a b x y db1 db2 whole room (sym (read_file-cut offset a) ∙ h)
          (sym (read_file-cut (offset + a) b) ∙ k)
