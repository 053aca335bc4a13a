-- ===== src/Tests/Fixtures.antt =====
-- A node with two cards, its driver and its configuration.
use Prim.Native.Char.{Char, code}
use ascend_device_plugin.Base.{
  ap, ◌≢◌, ℕ, zero, suc, ℤ, pos, String, true, false, List, [], ◌∷◌, ◌++◌, some, Result, ok, err,
  external,
}
use ascend_device_plugin.Config
use ascend_device_plugin.Config.{Template, VnpuConfig, NodeConfig, FilterDevices, Files}
use ascend_device_plugin.Manager.Driver.{DeviceInterface, VDevInfo}
use ascend_device_plugin.Manager.State.{AscendManager, Device}

abbrev pub template : String → ℕ → Template
template name memory = record { name = name; memory = pos memory; ai_core = pos 2; ai_cpu = pos 1 }

abbrev pub entry : String → String → String → ℕ → ℕ → VnpuConfig
entry word chip_name dev_type min max = record {
  common_word = word;
  chip_name = chip_name;
  dev_type = dev_type;
  resource_name = word;
  resource_memory_name = word;
  memory_allocatable = pos 21527;
  memory_capacity = pos 24576;
  memory_match_min = pos min;
  memory_match_max = pos max;
  ai_core = pos 8;
  ai_cpu = pos 7;
  templates = template "vir02" 6144 ∷ template "vir01" 3072 ∷ [];
}

-- A 310P with 24G and one with 48G share their chip name.
abbrev pub configs : List VnpuConfig
configs =
    entry "Ascend910B" "910B3" "Ascend910B" 0 0
    ∷ entry "Ascend310P" "310P3" "Ascend310P" 0 32768
    ∷ entry "Ascend310P-48G" "310P3" "Ascend310P" 32768 0
    ∷ []

abbrev pub plugin_config : Config.Config
plugin_config = record { vnpus = record { hami_vnpu_core = false; configs = configs } }

abbrev pub node_config : List String → List ℤ → NodeConfig
node_config uuids indices = record {
  name = "node-1";
  hami_vnpu_core = true;
  v_device_count = pos 0;
  filter_devices = record { uuid = uuids; index = indices };
}

-- The 24G entry in use, nothing cached, the second card ignored by its uuid.
abbrev pub sample_manager : AscendManager
sample_manager = record {
  config = entry "Ascend310P" "310P3" "Ascend310P" 0 32768;
  global_config = plugin_config;
  devs = [];
  node_config = some (node_config ("die-1" ∷ []) []);
}

-- The state of the hardware is the list of the vNPUs destroyed so far.
abbrev pub Hardware : Type 0
Hardware = List (ℤ × ℕ)

abbrev pub die_of : ℤ → Result String
die_of (pos zero) = ok "die-0"
die_of (pos (suc zero)) = ok "die-1"
die_of _ = err (external "no such device")

abbrev pub health_of : ℤ → Result ℕ
health_of (pos zero) = ok 1
health_of _ = ok 0

abbrev pub v_dev : ℕ → ℕ → VDevInfo
v_dev id used = record { v_dev_id = id; is_container_used = used }

abbrev pub v_devs_on : ℤ → Result (List VDevInfo)
v_devs_on (pos zero) = ok (v_dev 100 0 ∷ v_dev 101 1 ∷ v_dev 102 0 ∷ [])
v_devs_on _ = ok (v_dev 103 0 ∷ [])

abbrev pub sample_driver : DeviceInterface Hardware
sample_driver = record {
  get_valid_chip_info = λ w. ok (record { chip_type = "Ascend"; name = "310P3" });
  device_type_by_chip_name = λ name. "Ascend310P";
  get_device_list = λ w. ok (pos 0 ∷ pos 1 ∷ []);
  get_device_memory_info = λ w id. ok (some 49152);
  get_physic_id_from_logic_id = λ w id. ok id;
  get_card_id_device_id = λ w id. ok (id, pos 0);
  get_die_id = λ w id. die_of id;
  get_device_health = λ w id. health_of id;
  get_virtual_device_info = λ w id. v_devs_on id;
  destroy_virtual_device = λ w id v. (ok tt, w ++ (id, v) ∷ []);
}

-- The first card, as the driver reports it.
abbrev pub first_card : Device
first_card = record {
  uuid = "die-0";
  logic_id = pos 0;
  phy_id = pos 0;
  card_id = pos 0;
  device_id = pos 0;
  memory = pos 21527;
  ai_core = pos 8;
  health = false;
}

pub apart : (b c : Char) → code c ≢ code b → c ≢ b
apart b c h e = h (ap code e)
