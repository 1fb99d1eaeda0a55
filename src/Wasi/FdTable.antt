-- ===== src/Wasi/FdTable.antt =====
-- src/wasi/fd_table.rs: open flags, descriptors with a seek position, and the table of open
-- descriptors. `next_fd` is a u32 and `position` a u64; their additions keep the wrap-around.
pub mod Laws
mod Examples
use tarbox.Base.{
  ℤ, pos, negsuc, ℕ, zero, suc, ◌+◌, ◌-◌, ◌≤◌, ◌<◌, ◌%◌, ◌^◌, Bytes, Bool, true, false, Option,
  none, some, List, [], ◌∷◌, length, Result, ok, err, ok_or, ◌>>=◌, ltb, leb, ◌==◌, if◌then◌else◌,
  is_empty,
}
use tarbox.Wasi.Error.{WasiError, invalid_argument, not_supported, bad_fd}

pub record OpenFlags : Type 0 where
  pub read : Bool
  pub write : Bool
  pub append : Bool
  pub create : Bool
  pub truncate : Bool

-- `OpenFlags::default()`, which is `read_only()` too.
abbrev pub read_only : OpenFlags
read_only = record { read = true; write = false; append = false; create = false; truncate = false }

abbrev pub write_only : OpenFlags
write_only = record { read = false; write = true; append = false; create = false; truncate = false }

abbrev pub read_write : OpenFlags
read_write = record { read = true; write = true; append = false; create = false; truncate = false }

-- `OpenFlags::create()`
abbrev pub create_flags : OpenFlags
create_flags = record {
  read = false;
  write = true;
  append = false;
  create = true;
  truncate = false;
}

abbrev pub with_truncate : OpenFlags → OpenFlags
with_truncate f = record f { truncate = true }

abbrev pub with_append : OpenFlags → OpenFlags
with_append f = record f { append = true }

pub record FileDescriptor : Type 0 where
  pub inode_id : ℕ
  pub path : Bytes
  pub flags : OpenFlags
  pub position : ℕ
  pub is_dir : Bool

-- `FileDescriptor::new`
abbrev pub new_descriptor : ℕ → Bytes → OpenFlags → Bool → FileDescriptor
new_descriptor inode path flags is_dir = record {
  inode_id = inode;
  path = path;
  flags = flags;
  position = 0;
  is_dir = is_dir;
}

abbrev pub can_read : FileDescriptor → Bool
can_read d = d.flags.read

abbrev pub can_write : FileDescriptor → Bool
can_write d = d.flags.write

abbrev pub u32_mod : ℕ
u32_mod = 2 ^ 32

abbrev pub u64_mod : ℕ
u64_mod = 2 ^ 64

-- `seek`: the descriptor afterwards, and the new position or the error. The offset is an i64.
-- `-offset` of the least i64 wraps to itself, and cast to u64 it is 2^63 as well.
unfoldable pub seek : FileDescriptor → ℤ → ℕ → Result WasiError ℕ × FileDescriptor
seek d (pos n) zero = (ok n, record d { position = n })
seek d (negsuc n) zero = (err invalid_argument, d)
seek d (pos n) (suc zero) = let p = (d.position + n) % u64_mod in (ok p, record d { position = p })
seek d (negsuc n) (suc zero) =
    if ltb d.position (suc n)
    then (err invalid_argument, d)
    else (ok (d.position - suc n), record d { position = d.position - suc n })
seek d offset (suc (suc zero)) = (err not_supported, d)
seek d offset (suc (suc (suc w))) = (err invalid_argument, d)

-- The map from descriptor numbers, as an association list; `insert` replaces an entry.
abbrev pub Fds : Type 0
Fds = List (ℕ × FileDescriptor)

unfoldable pub lookup : ℕ → Fds → Option FileDescriptor
lookup fd [] = none
lookup fd ((k, d) ∷ fds) = if k == fd then some d else lookup fd fds

unfoldable pub remove : ℕ → Fds → Fds
remove fd [] = []
remove fd ((k, d) ∷ fds) = let rest = remove fd fds in if k == fd then rest else (k, d) ∷ rest

unfoldable pub insert : ℕ → FileDescriptor → Fds → Fds
unfolding remove
insert fd d fds = (fd, d) ∷ remove fd fds

pub record FdTable : Type 0 where
  pub fds : Fds
  pub next_fd : ℕ

-- Descriptors 0, 1 and 2 are reserved.
abbrev pub new_table : FdTable
new_table = record { fds = []; next_fd = 3 }

unfoldable pub allocate : FileDescriptor → FdTable → ℕ × FdTable
allocate d t =
    (t.next_fd, record { fds = insert t.next_fd d t.fds; next_fd = (t.next_fd + 1) % u32_mod })

unfoldable pub get : FdTable → ℕ → Result WasiError FileDescriptor
get t fd = ok_or (lookup fd t.fds) bad_fd

-- What `get_mut` is used for: the descriptor is replaced by what `f` makes of it.
unfoldable pub update : FdTable → ℕ → FileDescriptor → FdTable
update t fd d = record t { fds = insert fd d t.fds }

unfoldable pub close : FdTable → ℕ → Result WasiError FdTable
close t fd = ok_or (lookup fd t.fds) bad_fd >>= λ _. ok (record t { fds = remove fd t.fds })

unfoldable pub len : FdTable → ℕ
len t = length t.fds

unfoldable pub table_is_empty : FdTable → Bool
table_is_empty t = is_empty t.fds

unfoldable pub close_all : FdTable → FdTable
close_all t = record t { fds = [] }
