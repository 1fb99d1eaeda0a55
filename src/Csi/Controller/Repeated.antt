-- ===== src/Csi/Controller/Repeated.antt =====
-- src/csi/controller.rs: calls that are repeated, and snapshots that are listed.
use tarbox.Base.{
  ℕ, ◌≡◌, refl, sym, subst, ap, ◌∙◌, Bytes, bytes_eq, bytes_eq_refl, none, some, List, [], ◌∷◌,
  ◌++◌, map, keep, find-append_none, ok, err, Option-cases, inl, inr, ◌==◌, eq_refl, keep-append,
}
use tarbox.Path.{FsResult}
use tarbox.Storage.Models.{TenantId, Layer, Tenant, CreateLayerInput, Db, and_then}
use tarbox.Storage.Tenants.{get_by_name, create_tenant, new_tenant}
use tarbox.Storage.Layers.{create_layer, new_layer, list_layers, get_current, reverse}
use tarbox.Storage.Layers.Created.{IsCreated, create-IsCreated}
use tarbox.Csi.TenantMapping.{create_tenant_from_pvc, format_tenant_name}
use tarbox.Csi.Snapshots.{create_volume_snapshot, list_volume_snapshots, snapshot_input}
use tarbox.Csi.Controller.{
  Outside, CreateVolumeRequest, Volume, Snapshot, extract_pvc_info, answer_volume, volume_of,
  create_volume, parse_volume_id, create_snapshot_call, answer_snapshot, list_snapshots_call,
  snapshot_of,
}

-- The tenant of a claim is found by its name afterwards.
abbrev IsKnown : Bytes → FsResult TenantId × Db → Type 0
IsKnown n (err e, db) = Unit
IsKnown n (ok t, db) = (r : Tenant) × (get_by_name n db ≡ some r) × (r.tenant_id ≡ t)

IsKnown-after :
    (n : Bytes) (tenant : Tenant) (c : CreateLayerInput) (db : Db) (r : FsResult Layer × Db)
    → IsCreated db c r
    → get_by_name n db ≡ some tenant
    → IsKnown n (and_then r λ _ db'. (ok tenant.tenant_id, db'))
unfolding get_by_name
IsKnown-after n tenant c db (err e, db1) h k = tt
IsKnown-after n tenant c db (ok s, db1) (_, e) k = (tenant, ap (get_by_name n) e ∙ k, refl)

created-IsKnown :
    (namespace pvc_name : Bytes) (db : Db)
    → IsKnown (format_tenant_name namespace pvc_name) (create_tenant_from_pvc namespace pvc_name db)
unfolding create_tenant_from_pvc create_tenant get_by_name
created-IsKnown namespace pvc_name db =
    elim (Option-cases (get_by_name (format_tenant_name namespace pvc_name) db)) [
      | inr (r, e) ↦ rw (create_tenant_from_pvc, e) (r, e, refl)
      | inl e ↦
          rw (create_tenant_from_pvc, e, create_tenant, e)
            (IsKnown-after (format_tenant_name namespace pvc_name)
              (new_tenant (format_tenant_name namespace pvc_name) db) _ _ _ (create-IsCreated _ _)
              (find-append_none
                  (λ (r : Tenant). bytes_eq r.tenant_name (format_tenant_name namespace pvc_name))
                  db.tenants _ e
                ∙ rw (bytes_eq_refl (format_tenant_name namespace pvc_name)) refl))
    ]

module _ (o : Outside) where
  answered :
      (r : CreateVolumeRequest) (n : Bytes) (x : FsResult TenantId × Db) (v : Volume) (db1 : Db)
      → IsKnown n x
      → answer_volume o r x ≡ (ok v, db1)
      → (t : Tenant) × (get_by_name n db1 ≡ some t) × (v ≡ volume_of o r t.tenant_id)
  answered r n (err e, db) v db1 h a = cc a
  answered r n (ok t, db) v db1 (tenant, k, same) a =
      let tables : db ≡ db1 = cc a in
      let volume : volume_of o r t ≡ v = cc a in
      (tenant, subst (λ d. get_by_name n d ≡ some tenant) tables k, rw same (sym volume))

  -- A request for a volume that is repeated after it succeeded gives the same volume, and changes
  -- nothing.
  pub create_volume-twice :
      (r : CreateVolumeRequest) (db db1 : Db) (v : Volume)
      → create_volume o r db ≡ (ok v, db1)
      → create_volume o r db1 ≡ (ok v, db1)
  unfolding create_volume create_tenant_from_pvc
  create_volume-twice r db db1 v h =
      let info = extract_pvc_info r.parameters in
      let (t, k, same) =
        answered r (format_tenant_name info.0 info.1) _ v db1 (created-IsKnown info.0 info.1 db)
          (unfold create_volume in h) in
      rw (create_volume, create_tenant_from_pvc, k) (ap (λ (w : Volume). (ok w, db1)) (sym same))

  reverse-append : (xs : List Layer) (x : Layer) → reverse (xs ++ x ∷ []) ≡ x ∷ reverse xs
  reverse-append [] x = refl
  reverse-append (y ∷ xs) x = rw (reverse-append xs x) refl

  -- `Uuid::parse_str` refuses the empty text.
  abbrev pub IsLawful : Type 0
  IsLawful = o.parse_uuid [] ≡ none

  snapshot-listed :
      (id name : Bytes) (t : TenantId) (db db1 : Db) (s : Snapshot)
      → answer_snapshot o id (create_volume_snapshot t name db) ≡ (ok s, db1)
      → map (snapshot_of o id) (list_volume_snapshots t db1)
        ≡ s ∷ map (snapshot_of o id) (list_volume_snapshots t db)
  unfolding create_volume_snapshot list_volume_snapshots list_layers
  snapshot-listed id name t db db1 s h = elim (Option-cases (get_current t db)) [
    | inl e ↦ cc (rw (create_volume_snapshot, e) at h)
    | inr (c, e) ↦
        listed (create_layer (snapshot_input t c name) db) c
          (create-IsCreated db (snapshot_input t c name)) (rw (create_volume_snapshot, e) at h)
  ]
    where
      listed :
          (r : FsResult Layer × Db) (c : ℕ)
          → IsCreated db (snapshot_input t c name) r
          → answer_snapshot o id r ≡ (ok s, db1)
          → map (snapshot_of o id) (reverse (keep (λ (l : Layer). l.tenant_id == t) db1.layers))
            ≡ s
              ∷ map (snapshot_of o id) (reverse (keep (λ (l : Layer). l.tenant_id == t) db.layers))
      listed (err e, d) c k a = cc a
      listed (ok l, d) c (same, tables) a =
          let new = new_layer (snapshot_input t c name) db in
          let kept = λ (l : Layer). l.tenant_id == t in
          let moved : d ≡ db1 = cc a in
          let eq : db1.layers ≡ db.layers ++ new ∷ [] =
            ap (λ (x : Db). x.layers) (sym moved ∙ tables) in
          let shown : snapshot_of o id l ≡ s = cc a in
          rw
            (
              eq,
              keep-append kept db.layers (new ∷ []),
              eq_refl t,
              reverse-append (keep kept db.layers) new,
            )
            (ap (λ (x : Snapshot). x ∷ map (snapshot_of o id) (reverse (keep kept db.layers)))
              (ap (snapshot_of o id) (sym same) ∙ shown))

  -- A snapshot that was created through the controller is listed for its volume, first, before the
  -- snapshots that were listed before. The empty text is no UUID.
  pub create_snapshot_call-listed :
      (id name : Bytes) (db db1 : Db) (s : Snapshot)
      → IsLawful
      → create_snapshot_call o id name db ≡ (ok s, db1)
      → (before : List Snapshot) × (list_snapshots_call o id db ≡ ok before)
        × (list_snapshots_call o id db1 ≡ ok (s ∷ before))
  unfolding create_snapshot_call list_snapshots_call parse_volume_id
  create_snapshot_call-listed [] name db db1 s w h =
      cc (rw (create_snapshot_call, parse_volume_id, w) at h)
  create_snapshot_call-listed (x ∷ id) name db db1 s w h =
      elim (Option-cases (o.parse_uuid (x ∷ id))) [
        | inl e ↦ cc (rw (create_snapshot_call, parse_volume_id, e) at h)
        | inr (t, e) ↦ (
          map (snapshot_of o (x ∷ id)) (list_volume_snapshots t db),
          rw (list_snapshots_call, parse_volume_id, e) refl,
          rw (list_snapshots_call, parse_volume_id, e)
              (ap (λ l. ok l)
                (snapshot-listed (x ∷ id) name t db db1 s
                  (rw (create_snapshot_call, parse_volume_id, e) at h))),
        )
      ]
