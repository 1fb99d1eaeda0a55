-- ===== src/Csi/Controller.antt =====
-- src/csi/controller.rs: the calls of the controller service, without the messages of gRPC around
-- them. A UUID in text is read and written by the crate `uuid`. Deleting a volume, which deletes
-- its tenant, is not modelled, and calls with one fixed answer are left out.
mod Repeated
mod Examples
use tarbox.Base.{
  ℕ, ◌-◌, ◌^◌, ℤ, pos, Bytes, bytes, Bool, true, false, Option, none, some, List, [], ◌∷◌, map,
  Result, ok, err, ok_or, ◌>>=◌, is_some, get_key, text_key, if◌then◌else◌,
}
use tarbox.Path.{FsResult}
use tarbox.Storage.Models.{TenantId, LayerId, Layer, Tenant, Db}
use tarbox.Storage.Tenants.{get_tenant, list_tenants}
use tarbox.Csi.TenantMapping.{create_tenant_from_pvc}
use tarbox.Csi.Snapshots.{create_volume_snapshot, list_volume_snapshots}

-- `Uuid::parse_str` and `to_string`
pub record Outside : Type 0 where
  pub parse_uuid : Bytes → Option ℕ
  pub show_uuid : ℕ → Bytes

-- `tonic::Status`
pub data Status : Type 0 where
  internal : Bytes → Status
  invalid_argument : Bytes → Status
  not_found : Bytes → Status
  unimplemented : Bytes → Status

-- `parameters.get(k).cloned().unwrap_or_else(..)`
abbrev parameter_or : Bytes → Option Bytes → Bytes
parameter_or default none = default
parameter_or default (some v) = v

unfoldable pub extract_pvc_info : List (Bytes × Bytes) → Bytes × Bytes
extract_pvc_info parameters = (
  parameter_or (bytes "default") (get_key (bytes "csi.storage.k8s.io/pvc/namespace") parameters),
  parameter_or (bytes "unknown") (get_key (bytes "csi.storage.k8s.io/pvc/name") parameters),
)

-- A range of capacities by its required bytes, which are there in every range.
pub record CreateVolumeRequest : Type 0 where
  pub parameters : List (Bytes × Bytes)
  pub capacity_range : Option ℤ

pub record Volume : Type 0 where
  pub volume_id : Bytes
  pub capacity_bytes : ℤ
  pub volume_context : List (Bytes × Bytes)

pub record Snapshot : Type 0 where
  pub snapshot_id : Bytes
  pub source_volume_id : Bytes
  pub ready_to_use : Bool
  pub size_bytes : ℕ

abbrev capacity_or_default : Option ℤ → ℤ
capacity_or_default none = pos (2 ^ 30)
capacity_or_default (some c) = c

module _ (o : Outside) where
  abbrev pub volume_of : CreateVolumeRequest → TenantId → Volume
  volume_of r t = record {
    volume_id = o.show_uuid t;
    capacity_bytes = capacity_or_default r.capacity_range;
    volume_context = r.parameters;
  }

  abbrev pub answer_volume :
      CreateVolumeRequest → FsResult TenantId × Db → Result Status Volume × Db
  answer_volume r (ok t, db) = (ok (volume_of r t), db)
  answer_volume r (err e, db) = (err (internal (bytes "Failed to create tenant")), db)

  unfoldable pub create_volume : CreateVolumeRequest → Db → Result Status Volume × Db
  create_volume r db =
      let info = extract_pvc_info r.parameters in
      answer_volume r (create_tenant_from_pvc info.0 info.1 db)

  -- `parse_volume_id`, with the error of the calls that take one.
  unfoldable pub parse_volume_id : Bytes → Result Status TenantId
  parse_volume_id id = ok_or (o.parse_uuid id) (invalid_argument (bytes "Invalid volume_id"))

  -- The capabilities of the request are confirmed as they are.
  unfoldable pub validate_volume_capabilities {ℓ} :
      {C : Type ℓ} → Bytes → List C → Db → Result Status (List C)
  validate_volume_capabilities id capabilities db = parse_volume_id id >>= λ t.
      ok_or (get_tenant t db) (not_found (bytes "Volume not found")) >>= λ tenant. ok capabilities

  abbrev listed_volume : Tenant → Volume
  listed_volume t = record {
    volume_id = o.show_uuid t.tenant_id;
    capacity_bytes = pos 0;
    volume_context = [];
  }

  unfoldable pub list_volumes : Db → List Volume
  list_volumes db = map listed_volume (list_tenants db)

  abbrev pub snapshot_of : Bytes → Layer → Snapshot
  snapshot_of volume_id l = record {
    snapshot_id = o.show_uuid l.layer_id;
    source_volume_id = volume_id;
    ready_to_use = true;
    size_bytes = 0;
  }

  abbrev pub answer_snapshot : Bytes → FsResult Layer × Db → Result Status Snapshot × Db
  answer_snapshot id (ok l, db) = (ok (snapshot_of id l), db)
  answer_snapshot id (err e, db) = (err (internal (bytes "Failed to create snapshot")), db)

  -- `create_snapshot`
  unfoldable pub create_snapshot_call : Bytes → Bytes → Db → Result Status Snapshot × Db
  create_snapshot_call id name db = elim (parse_volume_id id) [
    | err e ↦ (err e, db)
    | ok t ↦ answer_snapshot id (create_volume_snapshot t name db)
  ]

  -- `delete_snapshot`, which reads the id and then reports success; the database is not asked.
  unfoldable pub delete_snapshot_call : Bytes → Result Status (Unit {0})
  delete_snapshot_call id =
      if is_some (o.parse_uuid id)
      then ok tt
      else err (invalid_argument (bytes "Invalid snapshot_id"))

  -- `list_snapshots`: of all volumes none are listed.
  unfoldable pub list_snapshots_call : Bytes → Db → Result Status (List Snapshot)
  list_snapshots_call [] db = ok []
  list_snapshots_call (c ∷ id) db =
      parse_volume_id (c ∷ id) >>= λ t. ok (map (snapshot_of (c ∷ id)) (list_volume_snapshots t db))

  -- `controller_expand_volume`, which accepts every capacity.
  unfoldable pub controller_expand_volume : Bytes → Option ℤ → Result Status ℤ
  controller_expand_volume id range =
      parse_volume_id id >>= λ t. ok_or range (invalid_argument (bytes "Missing required_bytes"))

  -- `get_snapshot`
  unfoldable pub get_snapshot_call : Bytes → Result Status Snapshot
  get_snapshot_call id =
      if is_some (o.parse_uuid id)
      then err (unimplemented (bytes "GetSnapshot requires tenant context"))
      else err (invalid_argument (bytes "Invalid snapshot_id"))
