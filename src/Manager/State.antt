-- ===== src/Manager/State.antt =====
-- internal/manager/manager.go: the manager's state, its configuration and its accessors. The driver and
-- its state are arguments of the operations; the lock, which only guards `devs`, is left out.
pub mod Loaded
pub mod Nodes
use Prim.Native.String.{◌++◌}
use ascend_device_plugin.Base.{
  ℕ, zero, suc, ℤ, pos, negsuc, String, Bool, true, false, not, ◌&&◌, ◌||◌, ◌==◌, List, [], ◌∷◌,
  Option, none, some, Outcome, returns, panics, and_then, Result, ok, err, Error, message, wrap,
  eqb, ltb_ℤ, eqb_ℤ, get_elem?, set, if◌then◌else◌,
}
use ascend_device_plugin.Base.Int.{quot}
use ascend_device_plugin.Base.Text.{itoa}
use ascend_device_plugin.Config
use ascend_device_plugin.Config.{
  Template, VnpuConfig, VnpusConfig, FilterDevices, NodeConfig, NodeListConfig, Files, is_empty,
  has_uuid,
}
use ascend_device_plugin.Manager.Driver.{DeviceInterface, ChipInfo}
use ascend_device_plugin.Manager.Select.{index_vnpu_config}

pub record Device : Type 0 where
  pub uuid : String
  pub logic_id : ℤ
  pub phy_id : ℤ
  pub card_id : ℤ
  pub device_id : ℤ
  pub memory : ℤ
  pub ai_core : ℤ
  pub health : Bool

pub record AscendManager : Type 0 where
  pub config : VnpuConfig
  pub global_config : Config.Config
  pub devs : List Device
  pub node_config : Option NodeConfig

abbrev no_config : VnpuConfig
no_config = record {
  common_word = "";
  chip_name = "";
  dev_type = "";
  resource_name = "";
  resource_memory_name = "";
  memory_allocatable = pos 0;
  memory_capacity = pos 0;
  memory_match_min = pos 0;
  memory_match_max = pos 0;
  ai_core = pos 0;
  ai_cpu = pos 0;
  templates = [];
}

-- NewAscendManager, once devmanager.AutoInit has given a driver: the zero values, and no device.
unfoldable pub new_ascend_manager : AscendManager
new_ascend_manager = record {
  config = no_config;
  global_config = record { vnpus = record { hami_vnpu_core = false; configs = [] } };
  devs = [];
  node_config = none;
}

unfoldable pub find_node : String → List NodeConfig → Option NodeConfig
find_node node_name [] = none
find_node node_name (n ∷ nodes) = if n.name == node_name then some n else find_node node_name nodes

-- The loop of LoadNodeConfig: without an entry for the node the manager stays as it was.
adopt : AscendManager → Option NodeConfig → AscendManager
adopt am none = am
adopt am (some n) = record am { node_config = some n }

unfoldable pub load_node_config :
    Files → String → String → AscendManager → Result (Unit {0}) × AscendManager
unfolding adopt
load_node_config f node_path node_name am = elim (Config.load_node_config f node_path) [
  | err e ↦ (err e, am)
  | ok list ↦ (ok tt, adopt am (find_node node_name list.nodes))
]

unfoldable pub should_check_ignored : AscendManager → Bool
unfolding is_empty
should_check_ignored am = elim am.node_config [
  | none ↦ false
  | some n ↦ not (is_empty n.filter_devices)
]

unfoldable pub lists_uuid : String → List String → Bool
lists_uuid uuid [] = false
lists_uuid uuid (ignored ∷ rest) = (not (uuid == "") && uuid == ignored) || lists_uuid uuid rest

unfoldable pub lists_index : ℤ → List ℤ → Bool
lists_index index [] = false
lists_index index (ignored ∷ rest) = eqb_ℤ index ignored || lists_index index rest

-- am.nodeConfig.FilterDevices; it is read only where the node configuration is there.
abbrev pub filter_devices : AscendManager → FilterDevices
filter_devices am = elim am.node_config [
  | none ↦ record { uuid = []; index = [] }
  | some n ↦ n.filter_devices
]

unfoldable pub should_ignore_device : AscendManager → String → ℤ → Bool
should_ignore_device am uuid index =
    if not (should_check_ignored am)
    then false
    else if lists_uuid uuid (filter_devices am).uuid
    then true
    else lists_index index (filter_devices am).index

module _ {W : Type 0} (d : DeviceInterface W) (w : W) where
  -- The first MemorySize that can be read and is not 0.
  unfoldable pub first_memory : List ℤ → ℕ
  first_memory [] = 0
  first_memory (id ∷ ids) = elim (d.get_device_memory_info w id) [
    | err e ↦ first_memory ids
    | ok none ↦ first_memory ids
    | ok (some size) ↦ elim (eqb size 0) [ true ↦ first_memory ids | false ↦ size ]
  ]

  unfoldable pub probe_device_memory_mb : ℕ
  unfolding first_memory
  probe_device_memory_mb = elim (d.get_device_list w) [ err e ↦ 0 | ok ids ↦ first_memory ids ]

-- sort.Slice of the templates by `Memory <`; it is not stable, so it stays a parameter.
abbrev pub by_memory : Template → Template → Bool
by_memory a b = ltb_ℤ a.memory b.memory

abbrev no_entry : String → String → ℕ → Error
no_entry chip_name dev_type memory_mb = message (
    "can not find vnpu config for chip "
    ++ chip_name
    ++ " (devType="
    ++ dev_type
    ++ ", dcmiMemoryMiB="
    ++ itoa (pos memory_mb)
    ++ ")")

module _ (sort_slice : (Template → Template → Bool) → List Template → List Template) where
  -- am.config is a copy of configs[idx] that shares its array of templates, which is sorted in place.
  adopt_config : Config.Config → ℕ → VnpuConfig → AscendManager → AscendManager
  adopt_config config idx c am = record am {
    config = sorted;
    global_config = record {
      vnpus = record config.vnpus { configs = set config.vnpus.configs idx sorted };
    };
  }
    where
      sorted : VnpuConfig
      sorted = record c { templates = sort_slice by_memory c.templates }

  -- From indexVNPUConfig's answer on.
  take_config :
      Config.Config → Error → ℤ → AscendManager → Outcome (Result (Unit {0}) × AscendManager)
  unfolding adopt_config
  take_config config e (negsuc zero) am = returns (err e, am)
  take_config config e (negsuc (suc n)) am = panics
  take_config config e (pos idx) am = elim (get_elem? config.vnpus.configs idx) [
    | none ↦ panics
    | some c ↦ returns (ok tt, adopt_config config idx c am)
  ]

  module _ {W : Type 0} (d : DeviceInterface W) (w : W) where
    select_config :
        Config.Config → ChipInfo → AscendManager → Outcome (Result (Unit {0}) × AscendManager)
    unfolding take_config
    select_config config chip_info am =
        let dev_type = d.device_type_by_chip_name chip_info.name in
        let memory_mb = probe_device_memory_mb d w in
        if not (chip_info.chip_type == "Ascend")
        then returns (err (message "chip type is not Ascend"), am)
        else and_then (index_vnpu_config config.vnpus.configs chip_info.name dev_type memory_mb)
            λ idx. take_config config (no_entry chip_info.name dev_type memory_mb) idx am

    unfoldable pub load_config :
        Files → String → AscendManager → Outcome (Result (Unit {0}) × AscendManager)
    unfolding select_config
    load_config f path am = elim (Config.load_config f path) [
      | err e ↦ returns (err (wrap ("failed to load config from " ++ path) e), am)
      | ok config ↦ elim (d.get_valid_chip_info w) [
        | err e ↦ returns (err (wrap "failed to get valid chip info" e), am)
        | ok chip_info ↦ select_config config chip_info am
      ]
    ]

unfoldable pub common_word : AscendManager → String
common_word am = am.config.common_word

unfoldable pub resource_name : AscendManager → String
resource_name am = am.config.resource_name

-- The loop of StaleRegisterCommonWords, for the entry in use.
unfoldable pub stale_words : VnpuConfig → List VnpuConfig → List String
stale_words current [] = []
stale_words current (c ∷ cs) =
    let rest = stale_words current cs in
    if c.common_word == "" || c.common_word == current.common_word
    then rest
    else if not (c.chip_name == "") && c.chip_name == current.chip_name
    then c.common_word ∷ rest
    else rest

unfoldable pub stale_register_common_words : AscendManager → List String
unfolding stale_words
stale_register_common_words am = stale_words am.config am.global_config.vnpus.configs

-- MemoryAllocatable / Templates[0].Memory; a first template of 0 is Go's division by zero.
unfoldable pub count_templates : VnpuConfig → List Template → Outcome ℤ
count_templates c [] = returns (pos 1)
count_templates c (t ∷ ts) =
    if eqb_ℤ t.memory (pos 0) then panics else returns (quot c.memory_allocatable t.memory)

unfoldable pub v_device_count : AscendManager → Outcome ℤ
unfolding count_templates
v_device_count am =
    let from_config = count_templates am.config am.config.templates in
    elim am.node_config [
      | none ↦ from_config
      | some n ↦ if ltb_ℤ (pos 0) n.v_device_count then returns n.v_device_count else from_config
    ]

unfoldable pub is_hami_vnpu_core : AscendManager → Bool
is_hami_vnpu_core am = elim am.node_config [
  | none ↦ am.global_config.vnpus.hami_vnpu_core
  | some n ↦ n.hami_vnpu_core
]
