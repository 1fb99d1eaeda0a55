-- ===== src/Wasi/FdTable/Laws.antt =====
-- What the descriptor table promises: fresh numbers, independent descriptors, bounded positions.
use tarbox.Base.{
  ℤ, pos, negsuc, ℕ, zero, suc, ◌+◌, ◌-◌, ◌≤◌, ◌<◌, ◌≡◌, ◌⊎◌, ◌↔◌, inl, inr, refl, ap, true, Option,
  none, some, [], ◌∷◌, length, Result, ok, err, ◌==◌, if◌then◌else◌, arith, is_some, Option-cases,
}
use tarbox.Wasi.Error.{WasiError, bad_fd}
use tarbox.Wasi.FdTable.{
  FileDescriptor, seek, u32_mod, u64_mod, Fds, lookup, remove, insert, FdTable, new_table, allocate,
  get, close, len,
}

lookup-remove :
    (k j : ℕ) (fds : Fds) → lookup j (remove k fds) ≡ (if k == j then none else lookup j fds)
unfolding lookup remove
lookup-remove k j [] = ground arith
lookup-remove k j ((i, d) ∷ fds) = ground (arith, lookup-remove k j fds)

pub lookup-insert :
    (k j : ℕ) (d : FileDescriptor) (fds : Fds)
    → lookup j (insert k d fds) ≡ (if k == j then some d else lookup j fds)
unfolding lookup insert
lookup-insert k j d fds = ground (arith, lookup-remove k j fds)

-- Every key stands once.
abbrev NodupKeys : Fds → Type 0
NodupKeys [] = Unit
NodupKeys ((k, _) ∷ fds) = (lookup k fds ≡ none) × NodupKeys fds

remove_absent : (k : ℕ) (fds : Fds) → lookup k fds ≡ none → remove k fds ≡ fds
unfolding lookup remove
remove_absent k [] h = refl
remove_absent k ((i, d) ∷ fds) h = ground (arith, remove_absent k fds)

remove-NodupKeys : (k : ℕ) (fds : Fds) → NodupKeys fds → NodupKeys (remove k fds)
unfolding remove
remove-NodupKeys k [] h = tt
remove-NodupKeys k ((i, d) ∷ fds) h =
    ground (arith, remove-NodupKeys k fds h.1, lookup-remove k i fds)

length-remove :
    (k : ℕ) (fds : Fds) (d : FileDescriptor)
    → NodupKeys fds
    → lookup k fds ≡ some d
    → length fds ≡ suc (length (remove k fds))
unfolding lookup remove
length-remove k [] d h e = cc
length-remove k ((i, c) ∷ fds) d h e =
    ground (arith, length-remove k fds d h.1, remove_absent k fds)

-- The open descriptors have distinct numbers, at least 3 and below the next number.
pub record IsValid (t : FdTable) : Type 0 where
  pub distinct : NodupKeys t.fds
  pub bounds : (fd : ℕ) → is_some (lookup fd t.fds) ≡ true → (3 ≤ fd) × (fd < t.next_fd)
  pub next : (3 ≤ t.next_fd) × (t.next_fd < u32_mod)

pub new_table-IsValid : IsValid new_table
unfolding lookup
new_table-IsValid = record { distinct = tt; bounds = λ fd h. cc; next = omega arith }

fresh : (t : FdTable) → IsValid t → lookup t.next_fd t.fds ≡ none
fresh t v = ground (arith, v.bounds t.next_fd)

insert_absent :
    (k : ℕ) (d : FileDescriptor) (fds : Fds) → lookup k fds ≡ none → insert k d fds ≡ (k, d) ∷ fds
unfolding insert
insert_absent k d fds h = rw (remove_absent k fds h) refl

insert-NodupKeys :
    (k : ℕ) (d : FileDescriptor) (fds : Fds) → NodupKeys fds → NodupKeys (insert k d fds)
unfolding insert
insert-NodupKeys k d fds h = (rw lookup-remove (ground arith), remove-NodupKeys k fds h)

allocate-IsValid :
    (t : FdTable) (d : FileDescriptor)
    → IsValid t
    → t.next_fd + 1 < u32_mod
    → IsValid (allocate d t).1
unfolding allocate
allocate-IsValid t d v room = record {
  distinct = insert-NodupKeys t.next_fd d t.fds v.distinct;
  bounds = λ fd h. ground (arith, v.bounds fd, lookup-insert t.next_fd fd d t.fds);
  next = omega (arith, v.next);
}

-- While numbers are left, `allocate` hands out one that is not open and is not reserved, opens
-- it for the descriptor given, leaves every other number as it was, and keeps the table valid.
pub allocate_fresh :
    (t : FdTable) (d : FileDescriptor)
    → IsValid t
    → t.next_fd + 1 < u32_mod
    → let (fd, t') = allocate d t in
      (get t fd ≡ err bad_fd)
      × (3 ≤ fd)
      × ((j : ℕ) → get t' j ≡ (if fd == j then ok d else get t j))
      × (len t' ≡ len t + 1)
      × IsValid t'
unfolding allocate get len
allocate_fresh t d v room = (
  rw (fresh t v),
  v.next.0,
  λ j. rw lookup-insert (ground arith),
  omega (arith, ap length (insert_absent t.next_fd d t.fds (fresh t v))),
  allocate-IsValid t d v room,
)

-- `close` of an open descriptor makes it unknown, leaves every other as it was, and keeps the
-- table valid with one descriptor less; of an unknown one it fails with `BadFd`.
pub close_lem :
    (t : FdTable) (fd : ℕ)
    → IsValid t
    → ((get t fd ≡ err bad_fd) × (close t fd ≡ err bad_fd))
      ⊎ ((t' : FdTable) × (close t fd ≡ ok t')
          × ((j : ℕ) → get t' j ≡ (if fd == j then err bad_fd else get t j))
          × (len t ≡ suc (len t'))
          × IsValid t')
unfolding close get len
close_lem t fd v = elim (Option-cases (lookup fd t.fds)) [
  | inl e ↦ inl (rw e refl, rw e refl)
  | inr (d, e) ↦ inr (
    record t { fds = remove fd t.fds },
    rw e refl,
    λ j. rw lookup-remove (ground arith),
    length-remove fd t.fds d v.distinct e,
    record {
      distinct = remove-NodupKeys fd t.fds v.distinct;
      bounds = λ j h. ground (arith, v.bounds j, lookup-remove fd j t.fds);
      next = v.next;
    },
  )
]

-- Where a seek counts from: the start of the file, the position, or nowhere.
abbrev pub base : FileDescriptor → ℕ → Option ℕ
base d zero = some 0
base d (suc zero) = some d.position
base d (suc (suc w)) = none

-- The position `p` is the base plus the offset, as integers.
abbrev pub Lands : Option ℕ → ℤ → ℕ → Type 0
Lands none o p = ⊥
Lands (some b) (pos n) p = p ≡ b + n
Lands (some b) (negsuc n) p = p + suc n ≡ b

-- The furthest byte that the seek can address.
abbrev pub reach : FileDescriptor → ℤ → ℕ
reach d (pos n) = d.position + n
reach d (negsuc n) = d.position

-- What the descriptor is afterwards.
abbrev pub moved : FileDescriptor → Result WasiError ℕ → FileDescriptor
moved d (ok p) = record d { position = p }
moved d (err e) = d

-- A seek that the u64 position can hold succeeds exactly where base plus offset is a position,
-- and returns it. A successful seek changes nothing but the position, a failed one nothing.
pub seek_exact :
    (d : FileDescriptor) (o : ℤ) (w : ℕ)
    → reach d o < u64_mod
    → ((p : ℕ) → ((seek d o w).0 ≡ ok p) ↔ Lands (base d w) o p)
      × ((seek d o w).1 ≡ moved d (seek d o w).0)
unfolding seek
seek_exact d (pos n) zero h = (λ p. ground arith, refl)
seek_exact d (negsuc n) zero h = (λ p. (λ e. cc, λ e. absurd (omega arith)), refl)
seek_exact d (pos n) (suc zero) h = (λ p. ground arith, refl)
seek_exact d (negsuc n) (suc zero) h = (λ p. ground arith, ground arith)
seek_exact d o (suc (suc zero)) h = (λ p. (λ e. cc, λ e. absurd e), refl)
seek_exact d o (suc (suc (suc w))) h = (λ p. (λ e. cc, λ e. absurd e), refl)

-- The u32 counter wraps: after the descriptor 2^32 - 1 come 0 and the other reserved numbers.
pub allocate_wraps :
    (t : FdTable) (c d : FileDescriptor)
    → t.next_fd ≡ u32_mod - 1
    → (allocate d (allocate c t).1).0 ≡ 0
unfolding allocate
allocate_wraps t c d h = omega arith
