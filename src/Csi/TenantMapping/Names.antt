-- ===== src/Csi/TenantMapping/Names.antt =====
-- When a tenant's name gives back the namespace and the claim it was made of.
use tarbox.Base.{◌≡◌, refl, Bytes, Bool, false, ◌&&◌, ◌||◌, some, [], ◌∷◌, ◌++◌, ◌==◌, arith}
use tarbox.Csi.TenantMapping.{hyphen, format_tenant_name, parse_tenant_name}

-- Two hyphens in a row.
abbrev pub has_separator : Bytes → Bool
has_separator [] = false
has_separator (x ∷ []) = false
has_separator (x ∷ y ∷ ys) = (x == hyphen && y == hyphen) || has_separator (y ∷ ys)

-- A namespace that has no two hyphens in a row and does not end in one comes back from the name,
-- with the claim, whatever the claim is called.
pub parse_tenant_name-format :
    (namespace pvc_name : Bytes)
    → has_separator (namespace ++ hyphen ∷ []) ≡ false
    → parse_tenant_name (format_tenant_name namespace pvc_name) ≡ some (namespace, pvc_name)
unfolding parse_tenant_name format_tenant_name
parse_tenant_name-format [] pvc_name h = refl
parse_tenant_name-format (x ∷ []) pvc_name h = ground arith
parse_tenant_name-format (x ∷ y ∷ ys) pvc_name h =
    ground (arith, parse_tenant_name-format (y ∷ ys) pvc_name)
