-- ===== src/Csi/Controller/Examples.antt =====
-- A volume that is requested twice, and a snapshot of the sample volume.
use tarbox.Base.{
  ℕ, ◌≡◌, refl, List, Bytes, bytes, bytes_eq, true, Option, none, some, [], ◌∷◌, ok, get_key,
}
use tarbox.Storage.Models.{Db}
use tarbox.Storage.Sample.{sample_db}
use tarbox.Storage.Tenants.{create_tenant, get_by_name}
use tarbox.Storage.Layers.{create_layer, get_current}
use tarbox.Csi.TenantMapping.{create_tenant_from_pvc, format_tenant_name}
use tarbox.Csi.Snapshots.{create_volume_snapshot}
use tarbox.Csi.Controller.{
  Outside, CreateVolumeRequest, Snapshot, extract_pvc_info, volume_of, create_volume,
  parse_volume_id, create_snapshot_call, list_snapshots_call,
}
use tarbox.Csi.Controller.Repeated.{create_volume-twice, create_snapshot_call-listed}

-- A UUID of one byte.
abbrev parse_byte : Bytes → Option ℕ
parse_byte [] = none
parse_byte (x ∷ []) = some x
parse_byte (x ∷ y ∷ ys) = none

abbrev outside : Outside
outside = record { parse_uuid = parse_byte; show_uuid = λ n. n ∷ [] }

abbrev request : CreateVolumeRequest
request = record { parameters = []; capacity_range = none }

abbrev after_volume : Db
after_volume = (create_volume outside request sample_db).1

requested :
    create_volume outside request sample_db ≡ (ok (volume_of outside request 30), after_volume)
unfolding create_volume extract_pvc_info create_tenant_from_pvc format_tenant_name create_tenant
    get_by_name create_layer get_key bytes_eq
requested = refl

create_volume-twice_example :
    create_volume outside request after_volume ≡ (ok (volume_of outside request 30), after_volume)
create_volume-twice_example =
    create_volume-twice outside request sample_db after_volume (volume_of outside request 30)
      requested

abbrev after_snapshot : Db
after_snapshot = (create_snapshot_call outside (7 ∷ []) (bytes "s") sample_db).1

abbrev sample_snapshot : Snapshot
sample_snapshot = record {
  snapshot_id = 30 ∷ [];
  source_volume_id = 7 ∷ [];
  ready_to_use = true;
  size_bytes = 0;
}

snapshot_taken :
    create_snapshot_call outside (7 ∷ []) (bytes "s") sample_db
    ≡ (ok sample_snapshot, after_snapshot)
unfolding create_snapshot_call parse_volume_id create_volume_snapshot create_layer get_current
    bytes_eq
snapshot_taken = refl

create_snapshot_call-listed_example :
    (before : List Snapshot) × (list_snapshots_call outside (7 ∷ []) sample_db ≡ ok before)
    × (list_snapshots_call outside (7 ∷ []) after_snapshot ≡ ok (sample_snapshot ∷ before))
create_snapshot_call-listed_example =
    create_snapshot_call-listed outside (7 ∷ []) (bytes "s") sample_db after_snapshot
      sample_snapshot refl snapshot_taken
