-- ===== src/Tests/Publishing.antt =====
-- What the plugin tells kubelet, HAMi and npu-smi of the node of `Fixtures`.
use ascend_device_plugin.Base.{
  ◌==◌, external, err, false, ◌⊎◌, ◌≡◌, ◌↔◌, refl, pos, String, Bool, true, false, List, [], ◌∷◌,
  map, none, some, Memᴰ, returns, ok, length, arith, ◌*◌, sym, subst,
}
use ascend_device_plugin.Base.Split.{Lacks}
use ascend_device_plugin.Base.Dict.{lookup}
use ascend_device_plugin.Manager.State.{Device, v_device_count}
use ascend_device_plugin.Manager.Devices.{get_devices}
use ascend_device_plugin.Server.Plugin.{
  Manager, PluginServer, manager_of, new_plugin_server, node_register_anno, node_handshake_anno,
  vnpu_node_selector_annotation,
}
use ascend_device_plugin.Server.Publish.{
  ApiDevice, fingerprint, device_fingerprint, all_slices, api_devices,
}
use ascend_device_plugin.Server.Publish.Fingerprint.{equals, AllPlain, shown, fingerprint_iff}
use ascend_device_plugin.Server.Publish.Slices.{IsSliceOf, api_devices-IsSliceOf}
use ascend_device_plugin.Server.Publish.Ids.{AreDistinct, api_devices-AreDistinct}
use ascend_device_plugin.Server.Register.{Node, Cluster}
use ascend_device_plugin.Server.Register.Patched.{
  IsServerOf, new_plugin_server-IsServerOf, Stale, annos, patched_annotations_lem,
}
use ascend_device_plugin.Server.Watch.{Watching, accepted, publish_change, connect, tick}
use ascend_device_plugin.Server.Watch.Synced.{Told, tick-Told}
use ascend_device_plugin.Server.DeviceShare.{
  NpuSmi, share_command, share_chips, resolve_npu_smi, apply_device_share, chip_of, chip_set,
  enable_chips, enable_node_device_share,
}
use ascend_device_plugin.Server.DeviceShare.Shared.{
  Enables, IsChipOf, enable_node_device_share-Enables,
}
use ascend_device_plugin.Tests.Fixtures.{apart, sample_manager, sample_driver, first_card}

abbrev mgr : Manager
mgr = record {
  common_word = "Ascend310P";
  resource_name = "huawei.com/Ascend310P";
  v_device_count = returns (pos 7);
  devices = first_card ∷ [];
  device_by_uuid = λ uuid. none;
  is_hami_vnpu_core = true;
  stale_register_common_words = "Ascend310P-48G" ∷ [];
}

abbrev pub ps : PluginServer
ps = (new_plugin_server (λ s. s) mgr "node-1" (pos 60) true []).0

abbrev node : Node
node = record { name = "node-1"; annotations = (node_register_anno "Ascend310P-48G", "[…]") ∷ [] }

abbrev pub cluster : Cluster
cluster = record {
  marshal = λ infos. ok "[…]";
  report_time = "2026.01.01 00:00:00";
  get_node = λ name. ok node;
  patches = λ n annos. none;
  has_client = true;
}

api_devices-IsSliceOf_example :
    (xs : List ApiDevice) × (api_devices mgr ≡ returns xs)
    × (length xs ≡ length mgr.devices * 7)
    × ((x : ApiDevice) → Memᴰ x xs ↔ IsSliceOf 7 mgr.devices x)
api_devices-IsSliceOf_example = api_devices-IsSliceOf mgr 7 refl

seven_slices : api_devices mgr ≡ returns (all_slices 7 mgr.devices)
unfolding api_devices
seven_slices = refl

api_devices-AreDistinct_example : AreDistinct (λ x. x.id) (all_slices 7 mgr.devices)
api_devices-AreDistinct_example =
    api_devices-AreDistinct mgr (all_slices 7 mgr.devices) ((λ y m. elim m [ ]), tt) seven_slices

abbrev recovered : Device
recovered = record first_card { health = true }

plain : (h : Bool) → AllPlain (record first_card { health = h } ∷ [])
plain h dev (Memᴰ.head e) =
    subst (λ x. Lacks equals x.uuid) (sym e)
      (
        apart equals "d" (omega arith),
        (
          apart equals "i" (omega arith),
          (
            apart equals "e" (omega arith),
            (apart equals "-" (omega arith), (apart equals "0" (omega arith), tt)),
          ),
        ),
      )
plain h dev (Memᴰ.tail m) = elim m [ ]

fingerprint_iff_example :
    (fingerprint (first_card ∷ []) ≡ fingerprint (recovered ∷ []))
    ↔ (map shown (first_card ∷ []) ≡ map shown (recovered ∷ []))
fingerprint_iff_example =
    fingerprint_iff (first_card ∷ []) (recovered ∷ []) (plain false) (plain true)

own : IsServerOf ps mgr
own = new_plugin_server-IsServerOf (λ s. s) mgr "node-1" (pos 60) true []

patched_annotations_lem_example :
    (lookup ps.register_anno (annos ps mgr cluster "[…]" node) ≡ some "[…]")
    × (lookup ps.handshake_anno (annos ps mgr cluster "[…]" node)
        ≡ some "Reported_2026.01.01 00:00:00")
    × (lookup vnpu_node_selector_annotation (annos ps mgr cluster "[…]" node) ≡ some "true")
    × ((word old : String)
        → Stale ps mgr cluster "[…]" node word
        → lookup (node_register_anno word) node.annotations ≡ some old
        → lookup (node_register_anno word) (annos ps mgr cluster "[…]" node) ≡ some "[]")
    × ((word old : String)
        → Stale ps mgr cluster "[…]" node word
        → lookup (node_handshake_anno word) node.annotations ≡ some old
        → lookup (node_handshake_anno word) (annos ps mgr cluster "[…]" node) ≡ some "")
patched_annotations_lem_example = patched_annotations_lem ps mgr cluster "[…]" node own

abbrev pub watching : Watching
watching = record {
  server = record ps { last_published_devices = fingerprint [] };
  manager = sample_manager;
  told = [];
}

pub counted_seven : v_device_count sample_manager ≡ returns (pos 3)
unfolding v_device_count
counted_seven = refl

tick-Told_example :
    Told sample_driver [] cluster accepted watching
      (tick sample_driver [] cluster accepted watching)
tick-Told_example = tick-Told sample_driver [] cluster accepted watching (pos 3) refl counted_seven

-- kubelet connects while a change waits that nobody took; the devices then change back. The recorded
-- fingerprint fits again, so nothing is sent, and kubelet still has the devices from its connection.
abbrev changed_back : Watching
changed_back = record (connect pending_change) {
  manager = record sample_manager { devs = first_card ∷ [] };
}
  where
    pending_change : Watching
    pending_change = record {
      server = record ps { last_published_devices = fingerprint (first_card ∷ []) };
      manager = record sample_manager { devs = recovered ∷ [] };
      told = first_card ∷ [];
    }

kubelet_keeps_old :
    (publish_change accepted changed_back ≡ some changed_back)
    × (changed_back.told ≡ recovered ∷ [])
unfolding publish_change connect device_fingerprint manager_of get_devices fingerprint
kubelet_keeps_old = (refl, refl)

abbrev pub npu_smi : NpuSmi
npu_smi = record {
  is_executable = λ path. path == "/usr/local/sbin/npu-smi";
  look_path = err (external "not in PATH");
  exec = λ command. none;
  trim_space = λ s. s;
}

first_chip_set :
    enable_node_device_share (λ chips. chips) npu_smi mgr
    ≡ (ok tt, share_command "/usr/local/sbin/npu-smi" (chip_of first_card) "1" ∷ [])
unfolding enable_node_device_share enable_chips apply_device_share share_chips resolve_npu_smi
    chip_set
first_chip_set = refl

enable_node_device_share-Enables_example :
    ((mgr.is_hami_vnpu_core ≡ false)
      × (enable_node_device_share (λ chips. chips) npu_smi mgr ≡ (ok tt, [])))
    ⊎ ((mgr.is_hami_vnpu_core ≡ true)
        × Enables
            (λ chips. chips)
            npu_smi
            (λ c chips m. m)
            (IsChipOf (λ chips. chips) npu_smi (λ c chips m. m) mgr)
            (enable_node_device_share (λ chips. chips) npu_smi mgr))
enable_node_device_share-Enables_example =
    enable_node_device_share-Enables (λ chips. chips) npu_smi (λ c chips m. m) mgr
