-- ===== src/Composition/Resolver/Longest.antt =====
-- `find_mount` finds the longest mount over a path, and what the check for conflicts keeps apart.
use tarbox.Base.{
  ℕ, ◌≤◌, ◌≡◌, refl, sym, ap, Bytes, bytes_eq_iff, Bool, true, false, not, ◌&&◌, ◌||◌, Option, none,
  some, List, [], ◌∷◌, length, All, ok, err, ltb, ltb→lt, arith, Bool-cases, Option-cases, inl, inr,
  ◌⊎◌,
}
use mathlib.Core.Option.{some-injective}
use tarbox.Composition.Resolver.{
  MountEntry, Components, components, strip_prefix, path_starts_with, path_eq, find_file,
  find_directory, find_mount, no_mount_found, covers, is_some_path, validate_no_conflict,
}

and_true : (a b : Bool) → (a && b) ≡ true → (a ≡ true) × (b ≡ true)
and_true true true e = (refl, refl)
and_true true false e = cc e
and_true false b e = cc e

-- What the second loop keeps: the match covers the path, and no mount that it passed is longer.
module _ (path : Bytes) where
  not_longer :
      (x : MountEntry) (n : ℕ)
      → covers path x ≡ true
      → (covers path x && ltb n (length x.virtual_path)) ≡ false
      → length x.virtual_path ≤ n
  not_longer x n c e = ground arith

  find_directory-longest :
      (ms : List MountEntry) (best : Option MountEntry) (n : ℕ) (m : MountEntry)
      → ((b : MountEntry) → best ≡ some b → (covers path b ≡ true) × (length b.virtual_path ≡ n))
      → find_directory ms path best n ≡ some m
      → (covers path m ≡ true)
        × (n ≤ length m.virtual_path)
        × All
            (λ (k : MountEntry).
              covers path k ≡ true → length k.virtual_path ≤ length m.virtual_path)
            ms
  unfolding find_directory
  find_directory-longest [] best n m b h = let (c, e) = b m h in (c, omega arith, tt)
  find_directory-longest (x ∷ ms) best n m b h =
      elim (Bool-cases (covers path x && ltb n (length x.virtual_path))) [
        | inl e ↦
            let both = and_true (covers path x) (ltb n (length x.virtual_path)) e in
            let (c, l, a) =
              find_directory-longest ms (some x) (length x.virtual_path) m
                (λ k p.
                  let same : x ≡ k = some-injective x k p in
                  (rw (← same) both.0, ap (λ (y : MountEntry). length y.virtual_path) (sym same)))
                (rw (find_directory, e) at h) in
            (c, omega (arith, l, ltb→lt n (length x.virtual_path) both.1), (λ _. l, a))
        | inr e ↦
            let (c, l, a) = find_directory-longest ms best n m b (rw (find_directory, e) at h) in
            (c, l, (λ k. let q = not_longer x n k e in omega arith, a))
      ]

  find_directory-none :
      (ms : List MountEntry) (best : Option MountEntry) (n : ℕ)
      → find_directory ms path best n ≡ none
      → (best ≡ none)
        × All (λ (k : MountEntry). covers path k ≡ true → length k.virtual_path ≤ n) ms
  unfolding find_directory
  find_directory-none [] best n h = (h, tt)
  find_directory-none (x ∷ ms) best n h =
      elim (Bool-cases (covers path x && ltb n (length x.virtual_path))) [
        | inl e ↦
            cc
              (find_directory-none ms (some x) (length x.virtual_path)
                (rw (find_directory, e) at h)).0
        | inr e ↦
            let (b, a) = find_directory-none ms best n (rw (find_directory, e) at h) in
            (b, (λ k. not_longer x n k e, a))
      ]

  find_file-exact :
      (ms : List MountEntry) (m : MountEntry)
      → find_file ms path ≡ some m
      → (m.is_file ≡ true) × (path_eq m.virtual_path path ≡ true)
  unfolding find_file
  find_file-exact [] m h = cc h
  find_file-exact (x ∷ ms) m h = ground (arith, find_file-exact ms m)

  abbrev pub IsLongest : List MountEntry → MountEntry → Type 0
  IsLongest ms m =
      (covers path m ≡ true)
      × All
          (λ (k : MountEntry). covers path k ≡ true → length k.virtual_path ≤ length m.virtual_path)
          ms

  -- The mount that is found is a file mount at the path, or, if there is none, a directory mount
  -- over the path that no directory mount over it is longer than; and if no mount is found, none is
  -- at the path or has a path longer than the empty one over it.
  pub find_mount-IsLongest :
      (ms : List MountEntry)
      → ((m : MountEntry) × (find_mount ms path ≡ ok m)
          × (((m.is_file ≡ true) × (path_eq m.virtual_path path ≡ true))
              ⊎ ((find_file ms path ≡ none) × IsLongest ms m)))
        ⊎ ((find_mount ms path ≡ err (no_mount_found path))
            × (find_file ms path ≡ none)
            × All (λ (k : MountEntry). covers path k ≡ true → length k.virtual_path ≤ 0) ms)
  unfolding find_mount
  find_mount-IsLongest ms = elim (Option-cases (find_file ms path)) [
    | inr (m, e) ↦ inl (m, rw (find_mount, e) refl, inl (find_file-exact ms m e))
    | inl e ↦ elim (Option-cases (find_directory ms path none 0)) [
      | inr (m, d) ↦
          let (c, _, a) = find_directory-longest ms none 0 m (λ b p. cc p) d in
          inl (m, rw (find_mount, e, d) refl, inr (e, (c, a)))
      | inl d ↦ inr (rw (find_mount, e, d) refl, e, (find_directory-none ms none 0 d).1)
    ]
  ]

-- Two paths over the same path are over one another.
prefixes-compare :
    (a b c : Components)
    → is_some_path (strip_prefix a c) ≡ true
    → is_some_path (strip_prefix b c) ≡ true
    → (is_some_path (strip_prefix a b) || is_some_path (strip_prefix b a)) ≡ true
unfolding strip_prefix
prefixes-compare [] b c h k = refl
prefixes-compare (x ∷ a) [] c h k = refl
prefixes-compare (x ∷ a) (y ∷ b) [] h k = cc h
prefixes-compare (x ∷ a) (y ∷ b) (z ∷ c) h k = ground (
  arith,
  prefixes-compare a b c,
  (bytes_eq_iff x z).0,
  (bytes_eq_iff y z).0,
  (bytes_eq_iff x y).1,
  (bytes_eq_iff y x).1,
)

-- A new mount that passes the check for conflicts is at the path of no mount that was there; and if
-- it is a directory mount, no path is both under it and under a directory mount that was there.
pub validate_no_conflict-disjoint :
    (ms : List MountEntry) (new_path : Bytes) (is_file : Bool) (path : Bytes)
    → validate_no_conflict ms new_path is_file ≡ ok tt
    → All
        (λ (m : MountEntry).
          (path_eq m.virtual_path new_path ≡ false)
          × ((not is_file
                && (not m.is_file
                    && (path_starts_with path new_path && path_starts_with path m.virtual_path)))
              ≡ false))
        ms
unfolding validate_no_conflict path_starts_with
validate_no_conflict-disjoint [] new_path is_file path h = tt
validate_no_conflict-disjoint (m ∷ ms) new_path is_file path h = ground (
  arith,
  validate_no_conflict-disjoint ms new_path is_file path,
  prefixes-compare (components new_path) (components m.virtual_path) (components path),
)
