-- ===== src/Layer/UnionView.antt =====
-- src/layer/union_view.rs: the view of a tenant's files over the chain of layers, current first.
pub mod Lookup
mod Examples
use tarbox.Base.{
  ℕ, ℤ, Bytes, bytes, bytes_eq, Bool, true, false, not, ◌&&◌, ◌||◌, Option, none, some, List, [],
  ◌∷◌, ◌++◌, find, keep, is_empty, is_some, ◌==◌, if◌then◌else◌,
}
use tarbox.Path.{slash}
use tarbox.Storage.Models.{
  TenantId, InodeId, LayerId, Layer, LayerEntry, ChangeType, add, modify, delete, Db,
}
use tarbox.Storage.Layers.{get_layer_chain, list_entries, get_current, reverse}

pub data FileState : Type 0 where
  exists : LayerId → InodeId → FileState
  deleted : LayerId → FileState
  not_found : FileState

unfoldable pub state_exists : FileState → Bool
state_exists (exists l i) = true
state_exists (deleted l) = false
state_exists not_found = false

unfoldable pub state_inode : FileState → Option InodeId
state_inode (exists l i) = some i
state_inode (deleted l) = none
state_inode not_found = none

unfoldable pub state_layer : FileState → Option LayerId
state_layer (exists l i) = some l
state_layer (deleted l) = some l
state_layer not_found = none

pub record UnionView : Type 0 where
  pub tenant_id : TenantId
  pub layer_chain : List Layer

unfoldable pub from_layer : TenantId → LayerId → Db → UnionView
from_layer t l db = record { tenant_id = t; layer_chain = get_layer_chain t l db }

unfoldable pub from_current : TenantId → Db → Option UnionView
from_current t db = elim (get_current t db) [ none ↦ none | some l ↦ some (from_layer t l db) ]

-- The two arms of the `match` on the change.
abbrev pub state_of : LayerId → ChangeType → InodeId → FileState
state_of l add i = exists l i
state_of l modify i = exists l i
state_of l delete i = deleted l

abbrev pub lookup_in : TenantId → Bytes → List Layer → Db → FileState
lookup_in t path [] db = not_found
lookup_in t path (r ∷ rs) db =
    let rest = lookup_in t path rs db in
    elim (find (λ e. bytes_eq e.path path) (list_entries t r.layer_id db)) [
      | some e ↦ state_of r.layer_id e.change_type e.inode_id
      | none ↦ rest
    ]

unfoldable pub lookup_file : UnionView → Bytes → Db → FileState
lookup_file v path db = lookup_in v.tenant_id path v.layer_chain db

pub record DirectoryEntry : Type 0 where
  pub name : Bytes
  pub inode_id : InodeId
  pub layer_id : LayerId

-- `trim_end_matches('/')`
unfoldable pub trim_end_slashes : Bytes → Bytes
trim_end_slashes [] = []
trim_end_slashes (x ∷ xs) =
    let rest = trim_end_slashes xs in if x == slash && is_empty rest then [] else x ∷ rest

-- The text before the last slash and after it, if there is one.
unfoldable pub split_last : Bytes → Option (Bytes × Bytes)
split_last [] = none
split_last (x ∷ xs) = elim (split_last xs) [
  | some p ↦ some (x ∷ p.0, p.1)
  | none ↦ if x == slash then some ([], xs) else none
]

unfoldable pub get_parent_path : Bytes → Option Bytes
unfolding trim_end_slashes split_last
get_parent_path p =
    if is_empty (trim_end_slashes p) then none else elim (split_last (trim_end_slashes p)) [
      | none ↦ some []
      | some (before, _) ↦ if is_empty before then some (slash ∷ []) else some before
    ]

unfoldable pub get_filename : Bytes → Bytes
unfolding trim_end_slashes split_last
get_filename p = elim (split_last (trim_end_slashes p)) [
  | none ↦ trim_end_slashes p
  | some (_, after) ↦ after
]

-- `HashMap::remove` and `HashMap::insert`
unfoldable pub remove_name : Bytes → List DirectoryEntry → List DirectoryEntry
remove_name n m = keep (λ d. not (bytes_eq d.name n)) m

unfoldable pub insert_name : DirectoryEntry → List DirectoryEntry → List DirectoryEntry
unfolding remove_name
insert_name d m = d ∷ remove_name d.name m

abbrev pub in_directory : Bytes → Option Bytes → Bool
in_directory dir_path none = false
in_directory dir_path (some parent) =
    bytes_eq parent dir_path || (bytes_eq dir_path (slash ∷ []) && is_empty parent)

abbrev pub apply_change :
    LayerId → LayerEntry → ChangeType → List DirectoryEntry → List DirectoryEntry
apply_change l e delete m = remove_name (get_filename e.path) m
apply_change l e add m =
    insert_name (record { name = get_filename e.path; inode_id = e.inode_id; layer_id = l }) m
apply_change l e modify m =
    insert_name (record { name = get_filename e.path; inode_id = e.inode_id; layer_id = l }) m

unfoldable pub apply_entries :
    Bytes → LayerId → List LayerEntry → List DirectoryEntry → List DirectoryEntry
apply_entries dir_path l [] m = m
apply_entries dir_path l (e ∷ es) m =
    apply_entries dir_path l es (
      if in_directory dir_path (get_parent_path e.path)
      then apply_change l e e.change_type m
      else m)

abbrev pub apply_layers :
    TenantId → Bytes → List Layer → Db → List DirectoryEntry → List DirectoryEntry
apply_layers t dir_path [] db m = m
apply_layers t dir_path (r ∷ rs) db m =
    apply_layers t dir_path rs db
      (apply_entries dir_path r.layer_id (list_entries t r.layer_id db) m)

-- `list_directory`: from the oldest layer to the newest.
unfoldable pub view_directory : UnionView → Bytes → Db → List DirectoryEntry
unfolding apply_entries
view_directory v dir_path db = apply_layers v.tenant_id dir_path (reverse v.layer_chain) db []

pub record FileVersion : Type 0 where
  pub layer_id : LayerId
  pub layer_name : Bytes
  pub change_type : ChangeType
  pub inode_id : InodeId
  pub size_delta : Option ℤ

abbrev pub versions_in : Layer → Bytes → List LayerEntry → List FileVersion
versions_in r path [] = []
versions_in r path (e ∷ es) =
    let rest = versions_in r path es in
    if bytes_eq e.path path
    then record {
      layer_id = r.layer_id;
      layer_name = r.layer_name;
      change_type = e.change_type;
      inode_id = e.inode_id;
      size_delta = e.size_delta;
    }
      ∷ rest
    else rest

abbrev pub history_in : TenantId → Bytes → List Layer → Db → List FileVersion
history_in t path [] db = []
history_in t path (r ∷ rs) db =
    versions_in r path (list_entries t r.layer_id db) ++ history_in t path rs db

unfoldable pub get_file_history : UnionView → Bytes → Db → List FileVersion
get_file_history v path db = history_in v.tenant_id path v.layer_chain db

unfoldable pub find_file_layer : UnionView → Bytes → Db → Option LayerId
unfolding lookup_file state_layer
find_file_layer v path db = state_layer (lookup_file v path db)

unfoldable pub file_exists : UnionView → Bytes → Db → Bool
unfolding lookup_file state_exists
file_exists v path db = state_exists (lookup_file v path db)
