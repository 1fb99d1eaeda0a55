-- ===== src/Csi/TenantMapping.antt =====
-- src/csi/tenant_mapping.rs: a volume claim becomes a tenant, whose name is made of the namespace
-- and the name of the claim. Volume ids are UUIDs in text, which the crate `uuid` parses.
mod Names
mod Opening
mod Examples
use tarbox.Base.{
  ℕ, Bytes, bytes, Bool, true, false, not, ◌&&◌, ◌||◌, Option, none, some, List, [], ◌∷◌, ◌++◌,
  Result, ok, err, ◌==◌, if◌then◌else◌,
}
use tarbox.Path.{FsResult, slash}
use tarbox.Storage.Models.{TenantId, CreateLayerInput, Db, and_then}
use tarbox.Storage.Tenants.{get_by_name, create_tenant}
use tarbox.Storage.Layers.{create_layer}

abbrev pub hyphen : ℕ
hyphen = b'-'

-- `format!("{}--{}", namespace, pvc_name)`
unfoldable pub format_tenant_name : Bytes → Bytes → Bytes
format_tenant_name namespace pvc_name = namespace ++ hyphen ∷ hyphen ∷ pvc_name

abbrev pub onto_before : ℕ → Option (Bytes × Bytes) → Option (Bytes × Bytes)
onto_before x none = none
onto_before x (some (before, after)) = some (x ∷ before, after)

-- `splitn(2, "--")` where it gives two parts: cut at the first separator.
unfoldable pub parse_tenant_name : Bytes → Option (Bytes × Bytes)
parse_tenant_name [] = none
parse_tenant_name (x ∷ []) = none
parse_tenant_name (x ∷ y ∷ ys) =
    let rest = parse_tenant_name (y ∷ ys) in
    if x == hyphen && y == hyphen then some ([], ys) else onto_before x rest

abbrev pub pvc_base_layer : TenantId → Bytes → Bytes → CreateLayerInput
pvc_base_layer t namespace pvc_name = record {
  tenant_id = t;
  parent_layer_id = none;
  layer_name = bytes "base";
  description = some (bytes "PVC: " ++ (namespace ++ slash ∷ pvc_name));
  created_by = bytes "csi-driver";
  mount_entry_id = none;
  is_working = false;
}

-- `create_tenant_from_pvc`
unfoldable pub create_tenant_from_pvc : Bytes → Bytes → Db → FsResult TenantId × Db
create_tenant_from_pvc namespace pvc_name db =
    elim (get_by_name (format_tenant_name namespace pvc_name) db) [
      | some existing ↦ (ok existing.tenant_id, db)
      | none ↦ and_then (create_tenant (format_tenant_name namespace pvc_name) db) λ tenant db'.
          and_then (create_layer (pvc_base_layer tenant.tenant_id namespace pvc_name) db')
            λ _ db''. (ok tenant.tenant_id, db'')
    ]
