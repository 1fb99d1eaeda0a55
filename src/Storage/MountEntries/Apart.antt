-- ===== src/Storage/MountEntries/Apart.antt =====
-- The mounts of a tenant never conflict, and no mount has a current layer, whatever is created,
-- changed, deleted and replaced.
use tarbox.Base.{
  ◌≡◌, refl, Bytes, Bool, true, false, not, ◌&&◌, ◌||◌, none, List, [], ◌∷◌, ◌++◌, keep, map, All,
  All-append, All-keep, Result, ok, err, >>=-eq-ok, arith, Bool-cases, inl, inr, ◌==◌,
}
use tarbox.Storage.Models.{TenantId, MountRow, Db}
use tarbox.Composition.Resolver.{
  MountEntry, path_eq, path_starts_with, validate_no_conflict, ResolveError,
}
use tarbox.Storage.MountEntries.{
  row_to_mount_entry, collect_entries, place_mount, order_mounts, list_mount_entries,
  check_path_conflict, is_conflict,
}

-- The test of `validate_no_conflict` for one mount that is there.
abbrev pub clash : Bytes → Bool → Bytes → Bool → Bool
clash p f q g =
    path_eq p q
    || (not g && (not f && path_starts_with q p) || not g && (not f && path_starts_with p q))

abbrev pub rows_clash : MountRow → MountRow → Bool
rows_clash r q =
    r.tenant_id == q.tenant_id && clash r.virtual_path r.is_file q.virtual_path q.is_file

-- No two mounts of a tenant conflict.
abbrev pub NoConflicts : List MountRow → Type 0
NoConflicts [] = Unit {0}
NoConflicts (r ∷ rs) = All (λ q. rows_clash r q ≡ false) rs × NoConflicts rs

pub validate-clash :
    (ms : List MountEntry) (q : Bytes) (g : Bool)
    → validate_no_conflict ms q g ≡ ok tt
    → All (λ (m : MountEntry). clash m.virtual_path m.is_file q g ≡ false) ms
unfolding validate_no_conflict
validate-clash [] q g h = tt
validate-clash (m ∷ ms) q g h = ground (arith, validate-clash ms q g)

-- A list that was read is empty, since no row can be read.
module _ (P : Bytes → Bool → Type 0) where
  collect-All :
      (rs : List MountRow) (ms : List MountEntry)
      → collect_entries rs ≡ ok ms
      → All (λ (m : MountEntry). P m.virtual_path m.is_file) ms
      → All (λ (r : MountRow). P r.virtual_path r.is_file) rs
  unfolding row_to_mount_entry
  collect-All [] ms h a = tt
  collect-All (r ∷ rs) ms h a = cc h

module _ (P : MountRow → Type 0) (collate : Bytes → Bytes → Bool) where
  place-All :
      (r : MountRow) (rs : List MountRow) → All P (place_mount collate r rs) → P r × All P rs
  place-All r [] h = h
  place-All r (x ∷ xs) h = elim (Bool-cases (collate r.name x.name)) [
    | inl e ↦ rw (place_mount, e) at h
    | inr e ↦
        let h' = rw (place_mount, e) at h in let (a, b) = place-All r xs h'.1 in (a, (h'.0, b))
  ]

  order-All : (rs : List MountRow) → All P (order_mounts collate rs) → All P rs
  order-All [] h = tt
  order-All (r ∷ rs) h = let (a, b) = place-All r (order_mounts collate rs) h in (a, order-All rs b)

  keep-All :
      (p : MountRow → Bool) (rs : List MountRow)
      → All P (keep p rs)
      → All (λ r. p r ≡ true → P r) rs
  keep-All p [] h = tt
  keep-All p (r ∷ rs) h = elim (Bool-cases (p r)) [
    | inl e ↦ let h' = rw (keep, e) at h in ((λ _. h'.0), keep-All p rs h'.1)
    | inr e ↦ ((λ t. cc (t, e)), keep-All p rs (rw (keep, e) at h))
  ]

no_conflict : (r : Result ResolveError (Unit {0})) → is_conflict r ≡ false → r ≡ ok tt
no_conflict (ok u) h = refl
no_conflict (err e) h = cc h

-- What `Ok(false)` says of the table.
pub check-apart :
    (collate : Bytes → Bytes → Bool) (t : TenantId) (q : Bytes) (g : Bool) (db : Db)
    → check_path_conflict collate t q g none db ≡ ok false
    → All
        (λ (r : MountRow). (r.tenant_id == t) ≡ true → clash r.virtual_path r.is_file q g ≡ false)
        db.mounts
unfolding check_path_conflict list_mount_entries
check-apart collate t q g db h =
    let (ms, e, h') = >>=-eq-ok (list_mount_entries collate t db) _ h in
    keep-All (λ r. clash r.virtual_path r.is_file q g ≡ false) collate (λ r. r.tenant_id == t)
      db.mounts
      (order-All (λ r. clash r.virtual_path r.is_file q g ≡ false) collate _
        (collect-All (λ p f. clash p f q g ≡ false) _ ms e
          (validate-clash ms q g (no_conflict _ (cc h')))))

-- With a row that conflicts with none.
pub append-NoConflicts :
    (rs : List MountRow) (q : MountRow)
    → NoConflicts rs
    → All (λ r. rows_clash r q ≡ false) rs
    → NoConflicts (rs ++ q ∷ [])
append-NoConflicts [] q n a = (tt, tt)
append-NoConflicts (r ∷ rs) q n a =
    (All-append _ rs (q ∷ []) n.0 (a.0, tt), append-NoConflicts rs q n.1 a.1)

-- Without some rows.
pub keep-NoConflicts :
    (p : MountRow → Bool) (rs : List MountRow) → NoConflicts rs → NoConflicts (keep p rs)
keep-NoConflicts p [] n = tt
keep-NoConflicts p (r ∷ rs) n = elim (Bool-cases (p r)) [
  | inl e ↦ rw (keep, e) (All-keep _ p rs n.0, keep-NoConflicts p rs n.1)
  | inr e ↦ rw (keep, e) (keep-NoConflicts p rs n.1)
]

-- After a change that tenants, paths and kinds outlive.
module _ (f : MountRow → MountRow)
    (same : (r q : MountRow) → rows_clash (f r) (f q) ≡ rows_clash r q) where
  map-apart :
      (r : MountRow) (rs : List MountRow)
      → All (λ q. rows_clash r q ≡ false) rs
      → All (λ q. rows_clash (f r) q ≡ false) (map f rs)
  map-apart r [] a = tt
  map-apart r (q ∷ rs) a = (rw (same r q) a.0, map-apart r rs a.1)

  pub map-NoConflicts : (rs : List MountRow) → NoConflicts rs → NoConflicts (map f rs)
  map-NoConflicts [] n = tt
  map-NoConflicts (r ∷ rs) n = (map-apart r rs n.0, map-NoConflicts rs n.1)
