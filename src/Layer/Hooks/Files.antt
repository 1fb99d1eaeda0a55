-- ===== src/Layer/Hooks/Files.antt =====
-- src/layer/hooks.rs: what the virtual files print and parse. The crates serde_json and uuid, the
-- columns that no row of the model has, and the format of times are parameters.
use tarbox.Base.{ℕ, ℤ, Bytes, bytes_eq, Bool, Option, List, Result}
use tarbox.Storage.Models.{LayerId, Layer}

pub record CreateLayerInput : Type 0 where
  pub name : Bytes
  pub description : Option Bytes
  pub confirm : Bool

pub record SwitchLayerInput : Type 0 where
  pub layer : Bytes

pub record DropLayerInput : Type 0 where
  pub layer : Bytes
  pub force : Bool

pub record LayerInfo : Type 0 where
  pub layer_id : Bytes
  pub name : Bytes
  pub parent_id : Option Bytes
  pub created_at : Bytes
  pub is_readonly : Bool
  pub is_current : Bool
  pub file_count : ℕ
  pub total_size : ℤ
  pub description : Option Bytes

-- What `read_stats_usage` prints.
pub record Usage : Type 0 where
  pub layer_count : ℕ
  pub total_size : ℤ
  pub total_files : ℕ
  pub tenant_id : Bytes

-- `uuid.to_string()` and `parse::<Uuid>()`; the columns `created_at`, as it is printed, and
-- `total_size` of a layer; printing and parsing of JSON, which may fail with a message.
pub record Outside : Type 0 where
  pub show_uuid : ℕ → Bytes
  pub parse_uuid : Bytes → Option ℕ
  pub created_at : LayerId → Bytes
  pub total_size : LayerId → ℤ
  pub print_info : LayerInfo → Result Bytes Bytes
  pub print_infos : List LayerInfo → Result Bytes Bytes
  pub print_usage : Usage → Result Bytes Bytes
  pub parse_create : Bytes → Result Bytes CreateLayerInput
  pub parse_switch : Bytes → Result Bytes SwitchLayerInput
  pub parse_drop : Bytes → Result Bytes DropLayerInput

abbrev pub named : Bytes → Layer → Bool
named n l = bytes_eq l.layer_name n
