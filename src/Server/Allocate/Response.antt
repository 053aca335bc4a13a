-- ===== src/Server/Allocate/Response.antt =====
-- internal/server/allocate.go, buildContainerAllocateResponse: what one container is given. `D` is HAMi's
-- ContainerDevice, of which only the UUID is read. What a call does to the outside is the list of its
-- effects, in order.
pub mod Local
pub mod Gathering
pub mod Contents
pub mod Modes
use Prim.Native.String.{◌++◌}
use mathlib.Core.List
use ascend_device_plugin.Base.{
  ℕ, suc, ◌-◌, ℤ, pos, String, Bool, true, false, not, ◌&&◌, ◌||◌, ◌==◌, List, [], ◌∷◌, Option,
  none, some, map, Result, ok, err, Error, message, wrap, or_wrap, or_fail, ◌>>=◌, length,
  get_elem?, eqb, ltb, if◌then◌else◌,
}
use ascend_device_plugin.Base.Dict.{Dict, lookup, insert}
use ascend_device_plugin.Base.Text.{itoa}
use ascend_device_plugin.Manager.State.{Device}
use ascend_device_plugin.Server.Plugin.{
  Manager, Pod, Container, PluginServer, RuntimeInfo, vnpu_mode_annotation, vnpu_mode_hami_core,
  node_lock_ascend,
}

pub record Mount : Type 0 where
  pub host_path : String
  pub container_path : String
  pub read_only : Bool

pub record ContainerAllocateResponse : Type 0 where
  pub envs : Dict String
  pub mounts : List Mount

-- The calls that change something outside the plugin.
pub data Effect : Type 0 where
  remove_all mkdir_all chmod : String → Effect
  patch_pod_annotations : Pod → Dict String → Effect
  -- node name, common word, lock name, pod
  pod_allocation_try_success : String → String → String → Pod → Effect
  -- node name, pod, lock name
  pod_allocation_failed : String → Pod → String → Effect

-- HAMi's and encoding/json's functions that read and write the annotations.
pub record Hami (D : Type 0) : Type 0 where
  pub uuid : D → String
  pub decode_pod_devices : Dict String → Dict String → Result (Dict (List (List D)))
  pub encode_pod_single_device : List (List D) → String
  pub unmarshal_runtime_infos : String → Result (List RuntimeInfo)

-- What the call meets outside: $HOOK_PATH, the global map InRequestDevices, which paths os.Stat finds,
-- and the outcome of PatchPodAnnotations.
pub record Host : Type 0 where
  pub hook_path_env : String
  pub in_request_devices : Dict String
  pub stats : String → Bool
  pub patches : Pod → Dict String → Option Error

unfoldable pub host_hook_path : Host → String
host_hook_path host =
    if host.hook_path_env == "" then "/usr/local/hami-vnpu-core" else host.hook_path_env

pub record Gathered : Type 0 where
  pub ids : List ℤ
  pub memories : List ℤ
  pub cores : List ℤ
  pub ascend_vnpu_spec : String

abbrev pub append_some : List ℤ → Option ℤ → List ℤ
append_some xs none = xs
append_some xs (some x) = List.◌++◌ xs (x ∷ [])

-- What the annotation says of a device, if it is in the lookup.
unfoldable pub note_info : Option RuntimeInfo → Gathered → Gathered
note_info none g = g
note_info (some info) g = record g {
  memories = append_some g.memories info.memory;
  cores = append_some g.cores info.core;
  ascend_vnpu_spec =
      if g.ascend_vnpu_spec == "" && not (info.temp == "") then info.temp else g.ascend_vnpu_spec;
}

-- ",%d" for each further id.
unfoldable pub visible_devices : String → List ℤ → String
visible_devices acc [] = acc
visible_devices acc (id ∷ ids) = visible_devices (acc ++ "," ++ itoa id) ids

abbrev pub read_only_mount : String → Mount
read_only_mount p = record { host_path = p; container_path = p; read_only = true }

abbrev pub driver_paths : List String
driver_paths =
    "/usr/local/bin/npu-smi" ∷ "/etc/ascend_install.info" ∷ "/usr/local/Ascend/driver/lib64/driver"
    ∷ "/usr/local/Ascend/driver/version.info" ∷ []

unfoldable pub core_mounts : String → List Mount
core_mounts container_shmem_dir = List.◌++◌ (map read_only_mount driver_paths) (
    record {
      host_path = "/usr/local/hami-vnpu-core";
      container_path = "/hami-vnpu-core";
      read_only = true;
    }
    ∷ record {
      host_path = "/usr/local/hami-vnpu-core/ld.so.preload";
      container_path = "/etc/ld.so.preload";
      read_only = true;
    }
    ∷ record {
      host_path = "/usr/local/hami-shared-region";
      container_path = "/hami-shared-region";
      read_only = false;
    }
    ∷ record {
      host_path = container_shmem_dir;
      container_path = "/hami-vnpu-shmem";
      read_only = false;
    }
    ∷ [])

-- `if len(xs) > 0 { resp.Envs[key] = strconv.FormatInt(xs[0], 10) }`
unfoldable pub set_first : String → List ℤ → Dict String → Dict String
set_first key [] envs = envs
set_first key (x ∷ xs) envs = insert key (itoa x) envs

unfoldable pub core_envs : ℤ → Gathered → Dict String → Dict String
unfolding set_first
core_envs first g envs = insert "NPU_LOCAL_SHM_PATH" "/hami-vnpu-shmem/vnpu_local_shmem" (
    insert "NPU_GLOBAL_SHM_PATH" ("/hami-shared-region/" ++ itoa first ++ "_global_registry")
      (set_first "NPU_PRIORITY" g.cores (set_first "NPU_MEM_QUOTA" g.memories envs)))

-- npuSmiMountCandidates: in each the path that is checked is also the host path.
abbrev pub npu_smi_mount_candidates : List String
npu_smi_mount_candidates =
    "/usr/local/Ascend/driver/tools/npu-smi" ∷ "/usr/local/sbin/npu-smi" ∷ "/usr/local/bin/npu-smi"
    ∷ []

unfoldable pub mount_npu_smi : Host → List String → List Mount
mount_npu_smi host [] = []
mount_npu_smi host (path ∷ paths) =
    if host.stats path
    then record { host_path = path; container_path = "/usr/local/bin/npu-smi"; read_only = true }
      ∷ []
    else mount_npu_smi host paths

-- pod.Annotations[key], "" where it is missing.
abbrev pub annotation : Pod → String → String
annotation pod key = elim (lookup key pod.annotations) [ none ↦ "" | some v ↦ v ]

unfoldable pub effective_hami_core : Manager → Pod → Bool
effective_hami_core mgr pod =
    let vnpu_mode = annotation pod vnpu_mode_annotation in
    vnpu_mode == vnpu_mode_hami_core || (vnpu_mode == "" && mgr.is_hami_vnpu_core)

abbrev pub container_shmem_dir : Host → Pod → String → String
container_shmem_dir host pod ctr_name =
    host_hook_path host ++ "/containers/" ++ pod.uid ++ "_" ++ ctr_name

-- The response from the first id on. The outcomes of the three calls on the directory are only logged.
unfoldable pub respond :
    Manager → Host → Pod → String → ℤ → List ℤ → Gathered → ContainerAllocateResponse × List Effect
unfolding core_mounts core_envs mount_npu_smi
respond mgr host pod ctr_name first others g =
    let envs = insert "ASCEND_VISIBLE_DEVICES" (visible_devices (itoa first) others) [] in
    let dir = container_shmem_dir host pod ctr_name in
    if effective_hami_core mgr pod
    then (
      record { envs = core_envs first g envs; mounts = core_mounts dir },
      remove_all dir ∷ mkdir_all dir ∷ chmod dir ∷ [],
    )
    else (
      record {
        envs =
            if g.ascend_vnpu_spec == ""
            then envs
            else insert "ASCEND_VNPU_SPECS" g.ascend_vnpu_spec envs;
        mounts = mount_npu_smi host npu_smi_mount_candidates;
      },
      [],
    )

unfoldable pub respond_to :
    PluginServer
    → Manager
    → Host
    → Pod
    → String
    → Gathered
    → Result (ContainerAllocateResponse × List Effect)
respond_to ps mgr host pod ctr_name g = elim g.ids [
  | [] ↦ err (message ("annotation " ++ ps.alloc_anno ++ " value invalid"))
  | first ∷ others ↦ ok (respond mgr host pod ctr_name first others g)
]

-- The first loop: a uuid that the manager does not know ends the call.
module _ {D : Type 0} (uuid_of : D → String) (mgr : Manager)
    (rt_info_lookup : Dict RuntimeInfo) where
  unfoldable pub gather : List D → Gathered → Result Gathered
  gather [] g = ok g
  gather (dev ∷ devs) g = do
    d ← or_fail (message ("unknown uuid: " ++ uuid_of dev)) (mgr.device_by_uuid (uuid_of dev))
    gather devs (
        note_info (lookup (uuid_of dev) rt_info_lookup)
          (record g { ids = List.◌++◌ g.ids (d.phy_id ∷ []) }))

abbrev pub nothing_gathered : Gathered
nothing_gathered = record { ids = []; memories = []; cores = []; ascend_vnpu_spec = "" }

unfoldable pub build_container_allocate_response :
    {D : Type 0}
    → Hami D
    → PluginServer
    → Manager
    → Host
    → Pod
    → String
    → List D
    → Dict RuntimeInfo
    → Result (ContainerAllocateResponse × List Effect)
build_container_allocate_response hami ps mgr host pod ctr_name devs rt_info_lookup = do
  g ← gather hami.uuid mgr rt_info_lookup devs nothing_gathered
  respond_to ps mgr host pod ctr_name g
