-- ===== src/Fs/Operations/Resolve.antt =====
-- What `resolve_path` finds: the inode that the components of the path lead to from the root.
use tarbox.Base.{
  ◌≡◌, ◌↔◌, refl, sym, ◌∙◌, Bytes, bytes_eq, bytes_eq_iff, Option, none, some, List, [], ◌∷◌, ok,
  ◌>>=◌, >>=-eq-ok, subst, Option-cases, Bool-cases, inl, inr,
}
use tarbox.Path.{root, normalize_path, path_components, parts}
use tarbox.Path.Components.{components_of_normal, normal_of_components, parts-root}
use tarbox.Path.Normal.{normalize_path_idempotent}
use tarbox.Storage.Models.{TenantId, InodeId, Inode, Db}
use tarbox.Storage.Inodes.{get_inode, get_by_parent_and_name}
use tarbox.Fs.Operations.{FileSystem, walk, found, resolve_normalized, resolve_path}

-- One step goes from an inode to its child of this name; the names lead from `i` to `j`.
pub data Leads (t : TenantId) (db : Db) : InodeId → List Bytes → InodeId → Type 0 where
  here : (i : InodeId) → Leads t db i [] i
  step :
      (i j : InodeId) (c : Bytes) (cs : List Bytes) (r : Inode)
      → get_by_parent_and_name t i c db ≡ some r
      → Leads t db r.inode_id cs j
      → Leads t db i (c ∷ cs) j

walk-step :
    (t : TenantId) (i : InodeId) (p c : Bytes) (cs : List Bytes) (db : Db) (r : Inode)
    → get_by_parent_and_name t i c db ≡ some r
    → walk t i p (c ∷ cs) db ≡ walk t r.inode_id p cs db
unfolding walk
walk-step t i p c cs db r e = rw (walk, e) refl

walk-Leads :
    (t : TenantId) (i j : InodeId) (p : Bytes) (cs : List Bytes) (db : Db)
    → walk t i p cs db ≡ ok j
    → Leads t db i cs j
unfolding walk
walk-Leads t i j p [] db h = let e : i ≡ j = cc h in subst (λ k. Leads t db i [] k) e (here i)
walk-Leads t i j p (c ∷ cs) db h = elim (Option-cases (get_by_parent_and_name t i c db)) [
  | inl e ↦ cc (rw (walk, e) at h)
  | inr (r, e) ↦
      step i j c cs r e (walk-Leads t r.inode_id j p cs db (rw (walk-step t i p c cs db r e) at h))
]

Leads-walk :
    (t : TenantId) (db : Db) (p : Bytes) (i j : InodeId) (cs : List Bytes)
    → Leads t db i cs j
    → walk t i p cs db ≡ ok j
unfolding walk
Leads-walk t db p i _ _ (here _) = refl
Leads-walk t db p i j _ (step _ _ c cs r e l) =
    walk-step t i p c cs db r e ∙ Leads-walk t db p r.inode_id j cs l

found-eq-ok : (o : Option Inode) (p : Bytes) (r : Inode) → (found o p ≡ ok r) ↔ (o ≡ some r)
found-eq-ok none p r = (λ h. cc h, λ h. cc h)
found-eq-ok (some x) p r = (λ h. cc h, λ h. cc h)

resolve_normalized-walk :
    (fs : FileSystem) (q : Bytes) (db : Db)
    → normalize_path q ≡ ok q
    → resolve_normalized fs q db ≡ (
        walk fs.tenant_id fs.root_inode_id q (parts q) db >>= λ i.
        found (get_inode fs.tenant_id i db) q)
unfolding resolve_normalized
resolve_normalized-walk fs q db h = elim (Bool-cases (bytes_eq q root)) [
  | inl e ↦ let k = (bytes_eq_iff q root).0 e in rw (e, k, parts-root) (unfold walk in refl)
  | inr e ↦ rw (e, components_of_normal q q h) refl
]

-- A path resolves to an inode exactly if it is a valid path whose components lead, child by child,
-- from the root to the row of that inode.
pub resolve_path_iff :
    (fs : FileSystem) (path : Bytes) (db : Db) (r : Inode)
    → (resolve_path fs path db ≡ ok r) ↔ (
        (cs : List Bytes) × (j : InodeId) × (path_components path ≡ ok cs)
        × Leads fs.tenant_id db fs.root_inode_id cs j
        × (get_inode fs.tenant_id j db ≡ some r))
unfolding resolve_path
resolve_path_iff fs path db r = (
  λ h.
      let (q, hq, e) = >>=-eq-ok (normalize_path path) _ h in
      let w = sym (resolve_normalized-walk fs q db (normalize_path_idempotent path q hq)) ∙ e in
      let (j, ej, f) = >>=-eq-ok (walk fs.tenant_id fs.root_inode_id q (parts q) db) _ w in
      (
        parts q,
        j,
        components_of_normal path q hq,
        walk-Leads fs.tenant_id fs.root_inode_id j q (parts q) db ej,
        (found-eq-ok (get_inode fs.tenant_id j db) q r).0 f,
      ),
  λ (cs, j, c, l, g).
      let (q, hq, e) = normal_of_components path cs c in
      rw hq (
        resolve_normalized-walk fs q db (normalize_path_idempotent path q hq)
        ∙ rw (← e, Leads-walk fs.tenant_id db q fs.root_inode_id j cs l, g) refl),
)
