-- ===== src/Fuse/Backend/Attributes.antt =====
-- Attributes: what a change of the group does to the owner.
use tarbox.Base.{ℕ, ◌≡◌, refl, Bytes, Option, none, some}
use tarbox.Storage.Models.{TenantId, Db}
use tarbox.Fuse.Backend.{Outside}
use tarbox.Fuse.Backend.Calls.{set_attr}

module _ (o : Outside) (t : TenantId) where
  -- Changing the group alone makes root the owner: it does what setting the owner to 0 with the group
  -- does, on every path. The times of access and change are ignored.
  pub set_attr-group :
      (path : Bytes) (gid : ℕ) (size mode atime mtime : Option ℕ) (db : Db)
      → set_attr o t path
          (record {
            size = size;
            atime = atime;
            mtime = mtime;
            mode = mode;
            uid = none;
            gid = some gid;
          })
          db
        ≡ set_attr o t path
            (record {
              size = size;
              atime = none;
              mtime = none;
              mode = mode;
              uid = some 0;
              gid = some gid;
            })
            db
  unfolding set_attr
  set_attr-group path gid size mode atime mtime db = refl
