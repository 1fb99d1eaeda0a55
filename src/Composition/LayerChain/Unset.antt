-- ===== src/Composition/LayerChain/Unset.antt =====
-- src/storage/layer.rs, `batch_snapshot`: without current layers of mounts no snapshot is taken.

use tarbox.Base.{
  ℕ, ◌≡◌, refl, Bytes, Bool, true, none, List, [], ◌∷◌, find-All, All, inl, inr, Option-cases,
}
use tarbox.Storage.Models.{TenantId, MountRow, Db}
use tarbox.Storage.MountEntries.Steps.{Reach, AllUnset, IsApart}
use tarbox.Storage.MountEntries.Steps.Invariant.{Reach-IsApart}
use tarbox.Composition.LayerChain.{SnapshotResult, batch_one, batch_snapshot, mount_named}

abbrev pub IsSkipped : SnapshotResult → Type 0
IsSkipped r = (r.layer_id ≡ none) × (r.skipped ≡ true)

module _ (show : ℕ → Bytes) (t : TenantId) (name : Bytes) (skip : Bool) where
  one-IsSkipped :
      (mount_name : Bytes) (db : Db)
      → AllUnset db.mounts
      → ((batch_one show name skip mount_name (mount_named t mount_name db) db).1 ≡ db)
        × IsSkipped (batch_one show name skip mount_name (mount_named t mount_name db) db).0
  one-IsSkipped mount_name db h = elim (Option-cases (mount_named t mount_name db)) [
    | inl e ↦ rw e (refl, (refl, refl))
    | inr (r, e) ↦
        let unset : r.current_layer_id ≡ none =
          find-All _ (λ (x : MountRow). x.current_layer_id ≡ none) db.mounts r h e in
        rw (e, unset) (refl, (refl, refl))
  ]

  batch-IsSkipped :
      (names : List Bytes) (db : Db)
      → AllUnset db.mounts
      → ((batch_snapshot show t names name skip db).1 ≡ db)
        × All IsSkipped (batch_snapshot show t names name skip db).0
  unfolding batch_snapshot
  batch-IsSkipped [] db h = (refl, tt)
  batch-IsSkipped (n ∷ names) db h =
      let (same, s) = one-IsSkipped n db h in
      let (same', s') = batch-IsSkipped names db h in (rw same same', (s, rw same s'))

  -- Whatever was done to the mounts and their layers since no mount had a current layer and none
  -- conflicted, a snapshot of several mounts changes nothing, and skips each of them.
  pub batch_snapshot-skips :
      {collate : Bytes → Bytes → Bool} (s db : Db) (names : List Bytes)
      → IsApart s
      → Reach collate show s db
      → ((batch_snapshot show t names name skip db).1 ≡ db)
        × All IsSkipped (batch_snapshot show t names name skip db).0
  batch_snapshot-skips s db names h r = batch-IsSkipped names db (Reach-IsApart h r).1
