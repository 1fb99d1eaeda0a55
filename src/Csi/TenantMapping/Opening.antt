-- ===== src/Csi/TenantMapping/Opening.antt =====
-- What becomes of a volume that is opened as a file system.
use tarbox.Base.{
  suc, ◌<◌, ◌≡◌, refl, ◌∙◌, Bytes, bytes, bytes_eq, bytes_eq_refl, Bool, true, false, ◌&&◌, none,
  some, List, [], ◌∷◌, ◌++◌, any, All, ok, err, ◌==◌, arith, eq_refl, find-append_none, find-none,
}
use tarbox.Path.{storage}
use tarbox.Storage.Models.{TenantId, Tenant, Layer, LayerId, Db}
use tarbox.Storage.Tenants.{get_by_name, get_tenant, create_tenant, new_tenant, root_inode}
use tarbox.Storage.Inodes.{unique_key}
use tarbox.Storage.Layers.{create_layer, new_layer, get_current, current_of}
use tarbox.Layer.Manager.{get_current_layer, initialize_base_layer, no_current_layer, base_layer}
use tarbox.Fs.Operations.{new_file_system, message}
use tarbox.Csi.TenantMapping.{format_tenant_name, create_tenant_from_pvc, pvc_base_layer}

-- Every id in the tables of tenants, layers and current layers was handed out.
pub record KnowsIds (db : Db) : Type 0 where
  pub tenants_known : All (λ (r : Tenant). r.tenant_id < db.next_uuid) db.tenants
  pub layers_known : All (λ (r : Layer). r.tenant_id < db.next_uuid) db.layers
  pub current_known : All (λ (c : TenantId × LayerId). c.0 < db.next_uuid) db.current

no_current_yet :
    (t : TenantId) (cs : List (TenantId × LayerId))
    → All (λ (c : TenantId × LayerId). c.0 < t) cs
    → current_of t cs ≡ none
no_current_yet t [] h = refl
no_current_yet t (c ∷ cs) h = ground (arith, no_current_yet t cs h.1)

no_layer_yet :
    (t : TenantId) (n : Bytes) (ls : List Layer)
    → All (λ (r : Layer). r.tenant_id < t) ls
    → any (λ (r : Layer). r.tenant_id == t && bytes_eq r.layer_name n) ls ≡ false
no_layer_yet t n [] h = refl
no_layer_yet t n (r ∷ rs) h = ground (arith, no_layer_yet t n rs h.1)

any-last {ℓ} :
    {A : Type ℓ} (p : A → Bool) (xs : List A) (x : A) → p x ≡ true → any p (xs ++ x ∷ []) ≡ true
any-last p [] x h = ground arith
any-last p (y ∷ xs) x h = ground (arith, any-last p xs x h)

module _ (namespace pvc_name : Bytes) (db : Db) (v : KnowsIds db)
    (new : get_by_name (format_tenant_name namespace pvc_name) db ≡ none) where
  abbrev name : Bytes
  name = format_tenant_name namespace pvc_name

  abbrev volume : TenantId
  volume = db.next_uuid

  abbrev with_tenant : Db
  with_tenant = record db {
    tenants = db.tenants ++ new_tenant name db ∷ [];
    inodes = db.inodes ++ root_inode db.next_uuid db ∷ [];
    next_inode = suc db.next_inode;
    next_uuid = suc db.next_uuid;
  }

  abbrev with_layer : Db
  with_layer = record with_tenant {
    layers = db.layers ++ new_layer (pvc_base_layer volume namespace pvc_name) with_tenant ∷ [];
    next_uuid = suc (suc db.next_uuid);
  }

  tenant_created : create_tenant name db ≡ (ok (new_tenant name db), with_tenant)
  unfolding create_tenant
  tenant_created = rw new refl

  layer_created :
      create_layer (pvc_base_layer volume namespace pvc_name) with_tenant
      ≡ (ok (new_layer (pvc_base_layer volume namespace pvc_name) with_tenant), with_layer)
  unfolding create_layer
  layer_created =
      rw
        (
          create_layer,
          no_layer_yet volume (bytes "base") db.layers v.layers_known,
          any-last (λ (r : Tenant). r.tenant_id == volume) db.tenants (new_tenant name db)
              (eq_refl volume),
        )
        refl

  volume_created : create_tenant_from_pvc namespace pvc_name db ≡ (ok volume, with_layer)
  unfolding create_tenant_from_pvc
  volume_created = rw (create_tenant_from_pvc, new, tenant_created, layer_created) refl

  tenant_found : get_tenant volume with_layer ≡ some (new_tenant name db)
  unfolding get_tenant
  tenant_found =
      find-append_none (λ (r : Tenant). r.tenant_id == volume) db.tenants (new_tenant name db ∷ [])
        (find-none (λ (r : Tenant). r.tenant_id == volume)
          (λ (r : Tenant). r.tenant_id < db.next_uuid) db.tenants (λ r h. ground arith)
          v.tenants_known)
      ∙ rw (eq_refl volume) refl

  not_current : get_current_layer volume with_layer ≡ err no_current_layer
  unfolding get_current_layer get_current
  not_current = rw (get_current_layer, no_current_yet volume db.current v.current_known) refl

  base_refused :
      create_layer (base_layer volume) with_layer ≡ (err (storage unique_key), with_layer)
  unfolding create_layer
  base_refused =
      rw
        (
          create_layer,
          any-last (λ (r : Layer). r.tenant_id == volume && bytes_eq r.layer_name (bytes "base"))
              db.layers (new_layer (pvc_base_layer volume namespace pvc_name) with_tenant) named,
        )
        refl
    where
      named : (db.next_uuid == db.next_uuid && bytes_eq (bytes "base") (bytes "base")) ≡ true
      named = rw (eq_refl db.next_uuid) (bytes_eq_refl (bytes "base"))

  -- If ids were handed out in order, a volume is made for a claim whose name is new, and cannot be
  -- opened: its base layer is not set as the
  -- current one, so opening makes another of the same name, which the database refuses.
  pub create_tenant_from_pvc-unopened :
      (t : TenantId) × (db' : Db) × (create_tenant_from_pvc namespace pvc_name db ≡ (ok t, db'))
      × (new_file_system t db' ≡ (err (storage (bytes "Storage error")), db'))
  unfolding new_file_system initialize_base_layer message
  create_tenant_from_pvc-unopened = (
    volume,
    with_layer,
    volume_created,
    rw (new_file_system, tenant_found, initialize_base_layer, not_current, base_refused) refl,
  )
