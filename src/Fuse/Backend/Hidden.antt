-- ===== src/Fuse/Backend/Hidden.antt =====
-- The virtual files can be changed in three places only.
use tarbox.Base.{
  ℕ, ◌≡◌, ◌≢◌, refl, Bytes, bytes_ne, true, ok, err, is_utf8, Bool-cases, inl, inr, ◌==◌, ==_iff,
  length,
}
use tarbox.Storage.Models.{TenantId, Db}
use tarbox.Layer.Hooks.{is_hook_path, layers_new, layers_switch, layers_drop, HookResult, error}
use tarbox.Layer.Hooks.Writing.{handle_write}
use tarbox.Fuse.Interface.{FsResult, SetAttr}
use tarbox.Fuse.Backend.{Outside, hook_written}
use tarbox.Fuse.Backend.Calls.{
  write_file, create_file, delete_file, truncate, create_dir, remove_dir, set_attr, chmod, chown,
}

abbrev IsError {ℓ} : {A : Type ℓ} → FsResult A → Type 0
IsError (ok a) = ⊥
IsError (err e) = Unit

abbrev IsRefused : HookResult → Type 0
IsRefused (error e) = Unit
IsRefused _ = ⊥

-- An operation that failed and left the database as it was.
abbrev pub FailsOn {ℓ} : {A : Type ℓ} → Db → FsResult A × Db → Type 0
FailsOn db r = IsError r.0 × (r.1 ≡ db)

module _ (o : Outside) (t : TenantId) (path : Bytes) (hook : is_hook_path path ≡ true)
    (db : Db) where
  handle_write-FailsOn :
      (d : Bytes)
      → path ≢ layers_new
      → path ≢ layers_switch
      → path ≢ layers_drop
      → IsRefused (handle_write o.hooks t path d db).0 × ((handle_write o.hooks t path d db).1 ≡ db)
  unfolding handle_write
  handle_write-FailsOn d a b c =
      rw
        (
          hook,
          bytes_ne path layers_new a,
          bytes_ne path layers_switch b,
          bytes_ne path layers_drop c,
        )
        (elim (Bool-cases (is_utf8 d)) [ inl e ↦ rw e (tt, refl) | inr e ↦ rw e (tt, refl) ])

  hook_written-FailsOn :
      (n : ℕ) (r : HookResult × Db) → IsRefused r.0 × (r.1 ≡ db) → FailsOn db (hook_written n r)
  hook_written-FailsOn n (error e, db') h = (tt, h.1)
  hook_written-FailsOn n (HookResult.content s, db') h = elim h.0 [ ]
  hook_written-FailsOn n (HookResult.write_success s, db') h = elim h.0 [ ]
  hook_written-FailsOn n (HookResult.not_a_hook, db') h = elim h.0 [ ]

  -- On a path below `/.tarbox` every operation that could change something fails and leaves the
  -- database as it was; writing does so on every path but those of the control files `new`, `switch`
  -- and `drop`, and on these too if the offset is not 0.
  pub hidden_unchanged :
      (offset mode uid gid size : ℕ) (d : Bytes) (a : SetAttr)
      → ((offset ≡ 0 → (path ≢ layers_new) × (path ≢ layers_switch) × (path ≢ layers_drop))
          → FailsOn db (write_file o t path offset d db))
        × FailsOn db (create_file o t path mode db)
        × FailsOn db (create_dir o t path mode db)
        × FailsOn db (delete_file o t path db)
        × FailsOn db (remove_dir o t path db)
        × FailsOn db (truncate o t path size db)
        × FailsOn db (chmod o t path mode db)
        × FailsOn db (chown o t path uid gid db)
        × FailsOn db (set_attr o t path a db)
  unfolding write_file create_file create_dir delete_file remove_dir truncate chmod chown set_attr
  hidden_unchanged offset mode uid gid size d a = (
    λ other. rw hook (elim (Bool-cases (offset == 0)) [
      | inr e ↦ rw e (tt, refl)
      | inl e ↦
          let (p, q, r) = other ((==_iff offset 0).0 e) in
          rw e (hook_written-FailsOn (length d) _ (handle_write-FailsOn d p q r))
    ]),
    rw hook (tt, refl),
    rw hook (tt, refl),
    rw hook (tt, refl),
    rw hook (tt, refl),
    rw hook (tt, refl),
    rw hook (tt, refl),
    rw hook (tt, refl),
    rw hook (tt, refl),
  )
