-- ===== src/Storage/Inodes/Update.antt =====
-- The dynamic UPDATE of src/storage/inode.rs: what it sets, and when it is refused.
use tarbox.Base.{
  ℕ, suc, ◌≡◌, refl, ap, bytes, true, false, Option, none, some, List, [], ◌∷◌, length, is_empty,
  ok, err, ◌==◌, eq_refl, Bool-cases, inl, inr,
}
use tarbox.Path.{storage}
use tarbox.Storage.Models.{TenantId, InodeId, Inode, UpdateInodeInput, Db}
use tarbox.Storage.Inodes.{
  Column, size_column, mode_column, uid_column, gid_column, atime_column, mtime_column,
  ctime_column, assign, assign_all, when, bind_value, given_columns, bind_ctime, update_columns,
  update_values, replace_row, get_inode, update_inode,
}

-- The field that the input gives, or else the one that the row has.
abbrev pub given_or : Option ℕ → ℕ → ℕ
given_or none old = old
given_or (some v) old = v

abbrev pub patched : UpdateInodeInput → Inode → Inode
patched u r = record r {
  size = given_or u.size r.size;
  mode = given_or u.mode r.mode;
  uid = given_or u.uid r.uid;
  gid = given_or u.gid r.gid;
  atime = given_or u.atime r.atime;
  mtime = given_or u.mtime r.mtime;
  ctime = given_or u.ctime r.ctime;
}

-- Some field is given.
abbrev pub GivesSome : UpdateInodeInput → Type 0
GivesSome u = is_empty (given_columns u) ≡ false

given_values : UpdateInodeInput → List ℕ
given_values u = bind_value u.size (
    bind_value u.mode (
      bind_value u.uid
        (bind_value u.gid (bind_value u.atime (bind_value u.mtime (bind_value u.ctime []))))))

abbrev set_field : Option ℕ → Column → Inode → Inode
set_field none c r = r
set_field (some v) c r = assign c v r

assign_all-when :
    (o : Option ℕ) (c : Column) (cs : List Column) (vs : List ℕ) (r : Inode)
    → assign_all (when o c cs) (bind_value o vs) r ≡ assign_all cs vs (set_field o c r)
assign_all-when none c cs vs r = refl
assign_all-when (some v) c cs vs r = refl

length-when :
    (o : Option ℕ) (c : Column) (cs : List Column) (vs : List ℕ)
    → length cs ≡ length vs
    → length (when o c cs) ≡ length (bind_value o vs)
length-when none c cs vs h = h
length-when (some v) c cs vs h = ap suc h

length-given : (u : UpdateInodeInput) → length (given_columns u) ≡ length (given_values u)
unfolding given_values
length-given u = length-when u.size size_column _ _ (
    length-when u.mode mode_column _ _ (
      length-when u.uid uid_column _ _ (
        length-when u.gid gid_column _ _ (
          length-when u.atime atime_column _ _
            (length-when u.mtime mtime_column _ _ (length-when u.ctime ctime_column [] [] refl))))))

abbrev field : Column → Inode → ℕ
field size_column r = r.size
field mode_column r = r.mode
field uid_column r = r.uid
field gid_column r = r.gid
field atime_column r = r.atime
field mtime_column r = r.mtime
field ctime_column r = r.ctime

set_field-eq :
    (o : Option ℕ) (c : Column) (r : Inode) → set_field o c r ≡ assign c (given_or o (field c r)) r
set_field-eq (some v) c r = refl
set_field-eq none size_column r = refl
set_field-eq none _ r = refl

set_given :
    (u : UpdateInodeInput) (r : Inode)
    → assign_all (given_columns u) (given_values u) r ≡ patched u r
unfolding given_values
set_given u r = simp assign_all-when (simp set_field-eq)

columns_never_empty : (u : UpdateInodeInput) → is_empty (update_columns u) ≡ false
unfolding update_columns
columns_never_empty u = elim (Bool-cases (is_empty (given_columns u))) [
  | inl e ↦ rw e refl
  | inr e ↦ rw e e
]

bind_ctime-nonempty :
    (o : Option ℕ) (cs : List Column) (now : ℕ)
    → is_empty cs ≡ false
    → bind_ctime o cs now ≡ bind_value o []
bind_ctime-nonempty none cs now h = rw h refl
bind_ctime-nonempty (some v) cs now h = refl

values_of_given : (u : UpdateInodeInput) (now : ℕ) → update_values u now ≡ given_values u
unfolding update_values given_values
values_of_given u now =
    rw (bind_ctime-nonempty u.ctime (update_columns u) now (columns_never_empty u)) refl

nil_of_is_empty : (cs : List Column) → is_empty cs ≡ true → length cs ≡ 0
nil_of_is_empty [] h = refl
nil_of_is_empty (c ∷ cs) h = cc

columns_of_given : (u : UpdateInodeInput) → GivesSome u → update_columns u ≡ given_columns u
unfolding update_columns
columns_of_given u h = rw h refl

balanced :
    (u : UpdateInodeInput) (now : ℕ)
    → GivesSome u
    → (length (update_columns u) == length (update_values u now)) ≡ true
balanced u now h = rw (columns_of_given u h, values_of_given u now, length-given u, eq_refl) refl

row_made :
    (u : UpdateInodeInput) (now : ℕ) (r : Inode)
    → GivesSome u
    → assign_all (update_columns u) (update_values u now) r ≡ patched u r
row_made u now r h = rw (columns_of_given u h, values_of_given u now) (set_given u r)

-- An update of an inode that is there, which gives some field, sets exactly the fields that it
-- gives, in the one row, and returns that row.
pub update_inode-patched :
    (t : TenantId) (i : InodeId) (u : UpdateInodeInput) (db : Db) (r : Inode)
    → GivesSome u
    → get_inode t i db ≡ some r
    → update_inode t i u db
      ≡ (ok (patched u r), record db { inodes = replace_row t i (patched u r) db.inodes })
unfolding update_inode
update_inode-patched t i u db r h e = rw (balanced u db.clock h, e, row_made u db.clock r h) refl

-- An update that gives no field sets `ctime` without binding its value: it always fails.
pub update_inode_empty :
    (t : TenantId) (i : InodeId) (u : UpdateInodeInput) (db : Db)
    → is_empty (given_columns u) ≡ true
    → update_inode t i u db ≡ (err (storage (bytes "wrong number of parameters")), db)
unfolding update_inode
update_inode_empty t i u db h =
    rw (values_of_given u db.clock, ← length-given u, nil_of_is_empty (given_columns u) h)
      (unfold update_columns in rw h refl)
