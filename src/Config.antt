-- ===== src/Config.antt =====
-- internal/vnpu.go: the device configuration, the node configuration and their loading.
-- int32 and int64 fields are ℤ. A []byte is the list of its bytes.
pub mod Loading
use ascend_device_plugin.Base.{
  ℕ, ℤ, String, Bool, true, false, List, Result, ok, err, Error, external, unmarshal_type, message,
  wrap, Option, none, some, ◌==◌, ◌&&◌, eqb, ltb, length, ◌>>=◌, if◌then◌else◌,
}

pub record Template : Type 0 where
  pub name : String
  pub memory : ℤ
  pub ai_core : ℤ
  pub ai_cpu : ℤ

pub record VnpuConfig : Type 0 where
  pub common_word : String
  pub chip_name : String
  pub dev_type : String
  pub resource_name : String
  pub resource_memory_name : String
  pub memory_allocatable : ℤ
  pub memory_capacity : ℤ
  pub memory_match_min : ℤ
  pub memory_match_max : ℤ
  pub ai_core : ℤ
  pub ai_cpu : ℤ
  pub templates : List Template

pub record VnpusConfig : Type 0 where
  pub hami_vnpu_core : Bool
  pub configs : List VnpuConfig

pub record Config : Type 0 where
  pub vnpus : VnpusConfig

pub record LegacyConfig : Type 0 where
  pub hami_vnpu_core : Bool
  pub vnpus : List VnpuConfig

pub record FilterDevices : Type 0 where
  pub uuid : List String
  pub index : List ℤ

unfoldable pub is_empty : FilterDevices → Bool
is_empty fd = eqb (length fd.uuid) 0 && eqb (length fd.index) 0

unfoldable pub has_uuid : FilterDevices → Bool
has_uuid fd = ltb 0 (length fd.uuid)

pub record NodeConfig : Type 0 where
  pub name : String
  pub hami_vnpu_core : Bool
  pub v_device_count : ℤ
  pub filter_devices : FilterDevices

pub record NodeListConfig : Type 0 where
  pub nodes : List NodeConfig

abbrev pub Bytes : Type 0
Bytes = List ℕ

-- What the loaders call: os.ReadFile, and yaml.Unmarshal at the three types. An Unmarshal that fails
-- may have filled its target in part; the loaders drop it then.
pub record Files : Type 0 where
  pub read_file : String → Result Bytes
  pub unmarshal_config : Bytes → Result Config
  pub unmarshal_legacy : Bytes → Result LegacyConfig
  pub unmarshal_node_list : Bytes → Result NodeListConfig

-- errors.As with a *json.UnmarshalTypeError: the first one in the chain, by its Field and Value.
unfoldable pub as_unmarshal_type_error : Error → Option (String × String)
as_unmarshal_type_error (external e) = none
as_unmarshal_type_error (unmarshal_type field value) = some (field, value)
as_unmarshal_type_error (message m) = none
as_unmarshal_type_error (wrap m e) = as_unmarshal_type_error e

unfoldable pub is_legacy_vnpus_layout : Error → Bool
is_legacy_vnpus_layout e = elim (as_unmarshal_type_error e) [
  | none ↦ false
  | some (field, value) ↦ field == "vnpus" && value == "array"
]

abbrev pub upgrade : LegacyConfig → Config
upgrade l = record { vnpus = record { hami_vnpu_core = l.hami_vnpu_core; configs = l.vnpus } }

-- What follows the first yaml.Unmarshal.
decode_config : Files → Bytes → Result Config → Result Config
decode_config f bytes (ok c) = ok c
decode_config f bytes (err e) =
    if is_legacy_vnpus_layout e
    then (do legacy ← f.unmarshal_legacy bytes; ok (upgrade legacy))
    else err e

unfoldable pub load_config : Files → String → Result Config
unfolding decode_config
load_config f path = do bytes ← f.read_file path; decode_config f bytes (f.unmarshal_config bytes)

unfoldable pub load_node_config : Files → String → Result NodeListConfig
load_node_config f path = do bytes ← f.read_file path; f.unmarshal_node_list bytes
