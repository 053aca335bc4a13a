-- ===== src/Tests/Servers.antt =====
-- The plugin's server on the node of `Fixtures`: a pod with two containers, the first of which is served.
use ascend_device_plugin.Base.{
  ◌≡◌, refl, ◌⊎◌, pos, String, true, false, List, [], ◌∷◌, ◌++◌, none, some, ok, length, returns,
}
use ascend_device_plugin.Base.Dict.{lookup}
use ascend_device_plugin.Base.Text.{itoa}
use ascend_device_plugin.Manager.Devices.{find_device}
use ascend_device_plugin.Server.Plugin.{Manager, Pod, PluginServer, RuntimeInfo, new_plugin_server}
use ascend_device_plugin.Server.Allocate.Response.{
  ContainerAllocateResponse, Effect, Hami, Host, build_container_allocate_response, note_info,
  gather, respond, respond_to,
}
use ascend_device_plugin.Server.Allocate.Response.Modes.{
  Builds, build_container_allocate_response-Builds,
}
use ascend_device_plugin.Server.Allocate.Pending.{pop_from, ctr_name_at, pop_next_container_devices}
use ascend_device_plugin.Server.Allocate.Pending.Queue.{
  Pops, pending, pop_next_container_devices-Pops,
}
use ascend_device_plugin.Server.Allocate.Handler.{allocate, serve_requests, found}
use ascend_device_plugin.Server.Allocate.Handler.Serving.{
  Serves, nothing, serve, Serves-serve_requests,
}
use ascend_device_plugin.Server.Allocate.Handler.Outcomes.{Succeeds, FailsWith, allocate-found}
use ascend_device_plugin.Tests.Fixtures.{first_card}

abbrev pub mgr : Manager
mgr = record {
  common_word = "Ascend310P";
  resource_name = "huawei.com/Ascend310P";
  v_device_count = returns (pos 7);
  devices = first_card ∷ [];
  device_by_uuid = λ uuid. find_device uuid (first_card ∷ []);
  is_hami_vnpu_core = true;
  stale_register_common_words = "Ascend310P-48G" ∷ [];
}

abbrev ps : PluginServer
ps = (new_plugin_server (λ s. s) mgr "node-1" (pos 60) true []).0

-- A device of HAMi's is its uuid.
abbrev hami : Hami String
hami = record {
  uuid = λ d. d;
  decode_pod_devices =
      λ reqs annos. ok (("Ascend310P", (("die-0" ∷ []) ∷ [] ∷ ("die-0" ∷ []) ∷ [])) ∷ []);
  encode_pod_single_device = λ psd. itoa (pos (length psd));
  unmarshal_runtime_infos = λ s. ok (info ∷ []);
}
  where
    info : RuntimeInfo
    info = record { uuid = "die-0"; temp = ""; memory = some (pos 1024); core = some (pos 20) }

abbrev pub host : Host
host = record {
  hook_path_env = "";
  in_request_devices = [];
  stats = λ path. false;
  patches = λ pod annos. none;
}

abbrev pub pod : Pod
pod = record {
  namespace = "default";
  name = "training";
  uid = "pod-uid";
  init_containers = record { name = "setup" } ∷ [];
  containers = record { name = "sidecar" } ∷ record { name = "main" } ∷ [];
  annotations = ("huawei.com/Ascend310P", "[…]") ∷ [];
}

abbrev waiting : List (List String)
waiting = [] ∷ [] ∷ ("die-0" ∷ []) ∷ []

popped_main :
    pop_next_container_devices pod waiting ≡ some ("die-0" ∷ [], "main", [] ∷ [] ∷ [] ∷ [])
unfolding pop_next_container_devices pop_from ctr_name_at
popped_main = refl

pop_next_container_devices-Pops_example :
    Pops (pending pod waiting) (pending pod) waiting (pop_next_container_devices pod waiting)
pop_next_container_devices-Pops_example = pop_next_container_devices-Pops pod waiting

build_container_allocate_response-Builds_example :
    Builds hami ps mgr host pod "main" [] ("die-0" ∷ [])
build_container_allocate_response-Builds_example =
    build_container_allocate_response-Builds hami ps mgr host pod "main" [] ("die-0" ∷ [])

allocate-found_example :
    Succeeds hami ps mgr host pod
      (("die-0-3" ∷ []) ∷ [])
      (allocate hami ps mgr host (found pod) (("die-0-3" ∷ []) ∷ []))
    ⊎ FailsWith hami ps mgr host pod (allocate hami ps mgr host (found pod) (("die-0-3" ∷ []) ∷ []))
allocate-found_example = allocate-found hami ps mgr host pod (("die-0-3" ∷ []) ∷ [])

abbrev response : ContainerAllocateResponse
response =
    (respond mgr host pod "main" (pos 0) []
      (record { ids = pos 0 ∷ []; memories = []; cores = []; ascend_vnpu_spec = "" })).0

abbrev effects : List Effect
effects =
    (respond mgr host pod "main" (pos 0) []
      (record { ids = pos 0 ∷ []; memories = []; cores = []; ascend_vnpu_spec = "" })).1

served :
    Serves hami ps mgr host pod []
      (("die-0-3" ∷ []) ∷ [])
      (("main", "die-0" ∷ []) ∷ [])
      (response ∷ [])
      (effects ++ [])
unfolding build_container_allocate_response gather note_info respond_to find_device lookup
served = serve ("die-0-3" ∷ []) "main" ("die-0" ∷ []) response effects refl refl nothing

Serves-serve_requests_example :
    (rest : List (List String)) × (serve_requests hami ps mgr host pod []
        (("die-0-3" ∷ []) ∷ [])
        waiting
      ≡ (ok (response ∷ [], rest), effects ++ []))
    × (pending pod rest ≡ [])
Serves-serve_requests_example =
    Serves-serve_requests hami ps mgr host pod [] waiting [] served (unfold ctr_name_at in refl)
