-- ===== src/Server/Plugin.antt =====
-- internal/server/server.go: the plugin's state and constants, what it needs of its manager, and the parts
-- of a pod that it reads.
use Prim.Native.String.{◌++◌}
use ascend_device_plugin.Base.{
  ℤ, pos, String, Bool, ◌≡◌, ◌≢◌, List, [], ◌∷◌, Option, none, some, Memᴰ, Outcome, arith, ◌==◌,
  eq_iff, Bool-cases, inl, inr,
}
use ascend_device_plugin.Base.Dict.{Dict, insert}
use ascend_device_plugin.Manager.State
use ascend_device_plugin.Manager.State.{AscendManager, Device}
use ascend_device_plugin.Manager.Devices.{get_devices, get_device_by_uuid, find_device}

abbrev pub node_lock_ascend : String
node_lock_ascend = "hami.io/mutex.lock"

abbrev pub ascend910_prefix : String
ascend910_prefix = "Ascend910"

abbrev pub ascend910_c_type : String
ascend910_c_type = "Ascend910C"

abbrev pub vnpu_mode_annotation : String
vnpu_mode_annotation = "huawei.com/vnpu-mode"

abbrev pub vnpu_mode_hami_core : String
vnpu_mode_hami_core = "hami-core"

abbrev pub vnpu_node_selector_annotation : String
vnpu_node_selector_annotation = "hami-vnpu-core"

abbrev pub hami_vnpu_core_max_percent : ℤ
hami_vnpu_core_max_percent = pos 100

-- What the plugin reads of the manager.Manager interface, at one time.
pub record Manager : Type 0 where
  pub common_word : String
  pub resource_name : String
  pub v_device_count : Outcome ℤ
  pub devices : List Device
  pub device_by_uuid : String → Option Device
  pub is_hami_vnpu_core : Bool
  pub stale_register_common_words : List String

-- What the plugin relies on: a uuid is looked up among the devices.
pub record IsManager (m : Manager) : Type 0 where
  pub device_found :
      (uuid : String) (dev : Device)
      → m.device_by_uuid uuid ≡ some dev
      → Memᴰ dev m.devices × (dev.uuid ≡ uuid)
  pub device_missing :
      (uuid : String) (dev : Device)
      → m.device_by_uuid uuid ≡ none
      → Memᴰ dev m.devices
      → dev.uuid ≢ uuid

-- *AscendManager as a Manager.
unfoldable pub manager_of : AscendManager → Manager
manager_of am = record {
  common_word = State.common_word am;
  resource_name = State.resource_name am;
  v_device_count = State.v_device_count am;
  devices = get_devices am;
  device_by_uuid = get_device_by_uuid am;
  is_hami_vnpu_core = State.is_hami_vnpu_core am;
  stale_register_common_words = State.stale_register_common_words am;
}

pub record Container : Type 0 where
  pub name : String

pub record Pod : Type 0 where
  pub namespace : String
  pub name : String
  pub uid : String
  pub init_containers : List Container
  pub containers : List Container
  pub annotations : Dict String

-- The fields that do not stand for channels, goroutines or test hooks.
pub record PluginServer : Type 0 where
  pub common_word : String
  pub node_name : String
  pub register_anno : String
  pub handshake_anno : String
  pub alloc_anno : String
  pub to_alloc_device_anno : String
  pub socket : String
  pub check_idle_vnpu_interval : ℤ
  pub enable_periodic_idle_vnpu_cleanup : Bool
  pub last_published_devices : String

pub record RuntimeInfo : Type 0 where
  pub uuid : String
  pub temp : String
  pub memory : Option ℤ
  pub core : Option ℤ

abbrev pub node_register_anno : String → String
node_register_anno word = "hami.io/node-register-" ++ word

abbrev pub node_handshake_anno : String → String
node_handshake_anno word = "hami.io/node-handshake-" ++ word

-- The server and HAMi's global map InRequestDevices with its entry. `join` is path.Join with
-- v1beta1.DevicePluginPath.
unfoldable pub new_plugin_server :
    (String → String) → Manager → String → ℤ → Bool → Dict String → PluginServer × Dict String
new_plugin_server join mgr node_name interval periodic in_request_devices =
    let word = mgr.common_word in
    let server : PluginServer = record {
      common_word = word;
      node_name = node_name;
      register_anno = node_register_anno word;
      handshake_anno = node_handshake_anno word;
      alloc_anno = "huawei.com/" ++ word;
      to_alloc_device_anno = "hami.io/" ++ word ++ "-devices-to-allocate";
      socket = join (word ++ ".sock");
      check_idle_vnpu_interval = interval;
      enable_periodic_idle_vnpu_cleanup = periodic;
      last_published_devices = "";
    } in
    (server, insert word server.to_alloc_device_anno in_request_devices)

find_device-mem :
    (uuid : String) (dev : Device) (devs : List Device)
    → find_device uuid devs ≡ some dev
    → Memᴰ dev devs × (dev.uuid ≡ uuid)
unfolding find_device
find_device-mem uuid dev [] h = cc
find_device-mem uuid dev (x ∷ devs) h = elim (Bool-cases (x.uuid == uuid)) [
  | inl hit ↦ (Memᴰ.head (ground arith), ground (arith, eq_iff x.uuid uuid))
  | inr miss ↦ let (m, e) = find_device-mem uuid dev devs (rw miss at h) in (Memᴰ.tail m, e)
]

find_device-none :
    (uuid : String) (dev : Device) (devs : List Device)
    → find_device uuid devs ≡ none
    → Memᴰ dev devs
    → dev.uuid ≢ uuid
unfolding find_device
find_device-none uuid dev [] h m = elim m [ ]
find_device-none uuid dev (x ∷ devs) h (Memᴰ.head e) = ground (arith, eq_iff x.uuid uuid)
find_device-none uuid dev (x ∷ devs) h (Memᴰ.tail m) =
    find_device-none uuid dev devs (ground arith) m

-- The manager keeps what the plugin relies on: GetDeviceByUUID finds a device of GetDevices with that
-- uuid, and finds none only where no device has it.
pub manager_of-IsManager : (am : AscendManager) → IsManager (manager_of am)
unfolding manager_of get_devices get_device_by_uuid
manager_of-IsManager am = record {
  device_found = λ uuid dev. find_device-mem uuid dev am.devs;
  device_missing = λ uuid dev. find_device-none uuid dev am.devs;
}
