-- ===== src/Fuse/InodeMap/Inverse.antt =====
-- The two maps are inverse to each other, whatever is created and removed.
use tarbox.Base.{
  ℕ, suc, ◌+◌, ◌%◌, ◌≤◌, ◌<◌, ◌≡◌, Bytes, bytes, bytes_eq_iff, none, some, [], get_key, remove_key,
  number_key, text_key, get_key-insert_key, get_key-remove_key, arith, Option-cases, inl, inr,
}
use tarbox.Fuse.InodeMap.{InodeMap, insert, new_map, get_or_create, get_path, remove}
use tarbox.Wasi.FdTable.{u64_mod}

-- A number leads to a path exactly if the path leads to the number, and the counter is above all
-- numbers.
pub record IsInverse (m : InodeMap) : Type 0 where
  pub to_inode :
      (i : ℕ) (p : Bytes) → get_key i m.inode_to_path ≡ some p → get_key p m.path_to_inode ≡ some i
  pub to_path :
      (i : ℕ) (p : Bytes) → get_key p m.path_to_inode ≡ some i → get_key i m.inode_to_path ≡ some p
  pub below : (i : ℕ) (p : Bytes) → get_key i m.inode_to_path ≡ some p → i < m.next_inode

-- What `get_or_create` returns leads to the path and the path to it, every other number leads where
-- it led, the counter grows by one at most, and the maps stay inverse.
pub record IsCreated (m : InodeMap) (path : Bytes) (r : ℕ × InodeMap) : Type 0 where
  pub leads : get_path r.0 r.1 ≡ some path
  pub known : get_key path r.1.path_to_inode ≡ some r.0
  pub kept : (i : ℕ) (p : Bytes) → get_path i m ≡ some p → get_path i r.1 ≡ some p
  pub counted : r.1.next_inode ≤ m.next_inode + 1
  pub inverse : IsInverse r.1

module _ (m : InodeMap) (v : IsInverse m) where
  -- Without a pair of both maps.
  without-IsInverse :
      (inode : ℕ) (path : Bytes)
      → get_key inode m.inode_to_path ≡ some path
      → IsInverse (record m {
        inode_to_path = remove_key inode m.inode_to_path;
        path_to_inode = remove_key path m.path_to_inode;
      })
  without-IsInverse inode path e = record {
    to_inode = λ i p h. ground (
      arith,
      get_key-remove_key inode i m.inode_to_path,
      get_key-remove_key path p m.path_to_inode,
      v.to_inode i p,
      v.to_inode inode path,
      bytes_eq_iff path p,
    );
    to_path = λ i p h. ground (
      arith,
      get_key-remove_key inode i m.inode_to_path,
      get_key-remove_key path p m.path_to_inode,
      v.to_path i p,
      bytes_eq_iff path p,
    );
    below = λ i p h. ground (arith, get_key-remove_key inode i m.inode_to_path, v.below i p);
  }

  pub remove-IsInverse : (inode : ℕ) → IsInverse (remove inode m)
  unfolding remove
  remove-IsInverse inode = elim (Option-cases (get_key inode m.inode_to_path)) [
    | inl e ↦ rw (e, remove) v
    | inr (path, e) ↦ rw (e, remove) (without-IsInverse inode path e)
  ]

  with-IsInverse :
      (path : Bytes)
      → m.next_inode + 1 < u64_mod
      → get_key path m.path_to_inode ≡ none
      → IsInverse (insert m.next_inode path (record m { next_inode = m.next_inode + 1 }))
  unfolding insert
  with-IsInverse path room e = record {
    to_inode = λ i p h. ground (
      arith,
      get_key-insert_key m.next_inode i path m.inode_to_path,
      get_key-insert_key path p m.next_inode m.path_to_inode,
      v.to_inode i p,
      bytes_eq_iff path p,
    );
    to_path = λ i p h. ground (
      arith,
      get_key-insert_key m.next_inode i path m.inode_to_path,
      get_key-insert_key path p m.next_inode m.path_to_inode,
      v.to_path i p,
      v.below i p,
      bytes_eq_iff path p,
    );
    below = λ i p h.
        ground (arith, get_key-insert_key m.next_inode i path m.inode_to_path, v.below i p);
  }

  insert-IsCreated :
      (path : Bytes)
      → m.next_inode + 1 < u64_mod
      → get_key path m.path_to_inode ≡ none
      → IsCreated m path
          (m.next_inode, insert m.next_inode path (record m { next_inode = m.next_inode + 1 }))
  unfolding insert get_path
  insert-IsCreated path room e = record {
    leads = ground (arith, get_key-insert_key m.next_inode m.next_inode path m.inode_to_path);
    known =
        ground (
          arith,
          get_key-insert_key path path m.next_inode m.path_to_inode,
          bytes_eq_iff path path,
        );
    kept = λ i p h.
        ground (arith, get_key-insert_key m.next_inode i path m.inode_to_path, v.below i p);
    counted = omega arith;
    inverse = with-IsInverse path room e;
  }

  pub get_or_create-IsCreated :
      (path : Bytes) → m.next_inode + 1 < u64_mod → IsCreated m path (get_or_create path m)
  unfolding get_or_create get_path
  get_or_create-IsCreated path room = elim (Option-cases (get_key path m.path_to_inode)) [
    | inr (inode, e) ↦
        rw (e, get_or_create)
          (record {
            leads = v.to_path inode path e;
            known = e;
            kept = λ i p h. h;
            counted = omega arith;
            inverse = v;
          })
    | inl e ↦
        let small : (m.next_inode + 1) % u64_mod ≡ m.next_inode + 1 = omega arith in
        rw (e, get_or_create) (rw small (insert-IsCreated path room e))
  ]

new_map-IsInverse : IsInverse new_map
unfolding new_map insert get_key
new_map-IsInverse = record {
  to_inode = λ i p h. ground (
    arith,
    get_key-insert_key {K = ℕ} 1 i (bytes "/") [],
    get_key-insert_key {V = ℕ} (bytes "/") p 1 [],
    bytes_eq_iff (bytes "/") p,
  );
  to_path = λ i p h. ground (
    arith,
    get_key-insert_key {K = ℕ} 1 i (bytes "/") [],
    get_key-insert_key {V = ℕ} (bytes "/") p 1 [],
    bytes_eq_iff (bytes "/") p,
  );
  below = λ i p h. ground (arith, get_key-insert_key {K = ℕ} 1 i (bytes "/") []);
}

remove-counter : (m : InodeMap) (inode : ℕ) → (remove inode m).next_inode ≡ m.next_inode
unfolding remove
remove-counter m inode = ground arith

-- Inverse maps, of which at most `n` numbers were handed out.
abbrev pub IsCounted : ℕ → InodeMap → Type 0
IsCounted n m = IsInverse m × (m.next_inode ≤ n + 2)

pub new_map-IsCounted : IsCounted 0 new_map
unfolding new_map insert
new_map-IsCounted = (new_map-IsInverse, omega arith)

pub get_or_create-IsCounted :
    (n : ℕ) (m : InodeMap) (path : Bytes)
    → IsCounted n m
    → n + 3 < u64_mod
    → IsCounted (suc n) (get_or_create path m).1
get_or_create-IsCounted n m path (v, le) room =
    let c = get_or_create-IsCreated m v path (omega arith) in (c.inverse, omega (arith, c.counted))

pub remove-IsCounted :
    (n : ℕ) (m : InodeMap) (inode : ℕ) → IsCounted n m → IsCounted n (remove inode m)
remove-IsCounted n m inode (v, le) =
    (remove-IsInverse m v inode, omega (arith, remove-counter m inode))
