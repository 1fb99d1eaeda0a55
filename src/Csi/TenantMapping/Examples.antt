-- ===== src/Csi/TenantMapping/Examples.antt =====
-- A claim in the sample database.
use tarbox.Base.{bytes, bytes_eq, none, ◌≡◌, refl, ok, err, arith}
use tarbox.Path.{storage}
use tarbox.Storage.Models.{TenantId, Db}
use tarbox.Storage.Tenants.{get_by_name}
use tarbox.Storage.Sample.{sample_db}
use tarbox.Fs.Operations.{new_file_system}
use tarbox.Csi.TenantMapping.{format_tenant_name, create_tenant_from_pvc}
use tarbox.Csi.TenantMapping.Opening.{create_tenant_from_pvc-unopened, KnowsIds}

sample-KnowsIds : KnowsIds sample_db
sample-KnowsIds = record {
  tenants_known = (omega arith, tt);
  layers_known = (omega arith, tt);
  current_known = (omega arith, tt);
}

new_name : get_by_name (format_tenant_name (bytes "default") (bytes "web")) sample_db ≡ none
unfolding get_by_name format_tenant_name bytes_eq
new_name = refl

create_tenant_from_pvc-unopened_example :
    (t : TenantId) × (db' : Db) × (create_tenant_from_pvc (bytes "default") (bytes "web") sample_db
      ≡ (ok t, db'))
    × (new_file_system t db' ≡ (err (storage (bytes "Storage error")), db'))
create_tenant_from_pvc-unopened_example =
    create_tenant_from_pvc-unopened (bytes "default") (bytes "web") sample_db sample-KnowsIds
      new_name
