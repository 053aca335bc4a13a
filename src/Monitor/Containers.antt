-- ===== src/Monitor/Containers.antt =====
-- internal/monitor/container.go: the containers of the node, found by their directories.
pub mod Names
pub mod Pods
pub mod Described
pub mod Visited
use Prim.Native.Char.{code}
use Prim.Native.String
use text.Mathlib.Text.{starts_with}
use ascend_device_plugin.Base.Text.{ends_with}
use ascend_device_plugin.Base.{
  ℕ, String, Bool, true, false, not, ◌&&◌, ◌||◌, ◌==◌, List, [], ◌∷◌, ◌++◌, Option, none, some,
  Outcome, returns, and_then, Result, ok, err, Error, wrap, eqb, keep, if◌then◌else◌,
}
use ascend_device_plugin.Base.Dict.{Dict, lookup, insert}
use ascend_device_plugin.Monitor.Shmem.{
  PodStats, ShmemFiles, open_local_shmem, read_pod_stats, read_memory_by_device,
}

-- Of a container its name and the keys of its limits and requests, in the order in which Go goes through
-- these maps.
pub record ContainerSpec : Type 0 where
  pub name : String
  pub limits : List String
  pub requests : List String

pub record LivePod : Type 0 where
  pub uid : String
  pub namespace : String
  pub name : String
  pub phase : String
  pub containers : List ContainerSpec
  pub annotations : Dict String

pub record ContainerEntry : Type 0 where
  pub pod_uid : String
  pub container_name : String
  pub namespace : String
  pub pod_name : String
  pub stats : PodStats
  pub device_memory : List ℕ
  pub device_uuids : List String

pub record DirEntry : Type 0 where
  pub name : String
  pub is_dir : Bool

-- The pod lister, os.ReadDir of the containers' directory with os.IsNotExist, the shared-memory file of a
-- container directory by its name, and json.Unmarshal of an annotation to its UUIDs.
pub record Listing : Type 0 where
  pub pods : Result (List LivePod)
  pub read_dir : Result (List DirEntry)
  pub is_not_exist : Error → Bool
  pub shmem_path : String → String
  pub shmem : ShmemFiles
  pub unmarshal_uuids : String → Result (List String)

abbrev pub is_device_key : String → Bool
is_device_key k =
    starts_with k "huawei.com/Ascend" && not (ends_with k "-core") && not (ends_with k "-memory")

unfoldable pub first_key : List String → Option String
first_key [] = none
first_key (k ∷ keys) = if is_device_key k then some k else first_key keys

-- The limits, and then the requests; "" where no container of the name has such a key.
unfoldable pub ascend_device_resource : List ContainerSpec → String → String
unfolding first_key
ascend_device_resource [] ctr_name = ""
ascend_device_resource (c ∷ containers) ctr_name =
    let rest = ascend_device_resource containers ctr_name in
    if not (c.name == ctr_name) then rest else elim (first_key c.limits) [
      | some k ↦ k
      | none ↦ elim (first_key c.requests) [ some k ↦ k | none ↦ rest ]
    ]

-- strings.SplitN(name, "_", 2), where it gives two parts.
unfoldable pub split_name : String → Option (String × String)
split_name String.[] = none
split_name (String.◌∷◌ c s) = elim (eqb (code c) 95) [
  | true ↦ some ("", s)
  | false ↦ elim (split_name s) [
    | none ↦ none
    | some (front, back) ↦ some (String.◌∷◌ c front, back)
  ]
]

-- `podByUID[string(pod.UID)] = pod`, in the lister's order.
unfoldable pub index_pods : List LivePod → Dict LivePod → Dict LivePod
index_pods [] by_uid = by_uid
index_pods (pod ∷ pods) by_uid = index_pods pods (insert pod.uid pod by_uid)

unfoldable pub is_finished : LivePod → Bool
is_finished pod = pod.phase == "Succeeded" || pod.phase == "Failed"

module _ (l : Listing) where
  unfoldable pub annotated_uuids : Option String → List String
  annotated_uuids none = []
  annotated_uuids (some anno) = elim (l.unmarshal_uuids anno) [
    | err e ↦ []
    | ok uuids ↦ keep (λ uuid. not (uuid == "")) uuids
  ]

  unfoldable pub device_uuids : LivePod → String → List String
  unfolding annotated_uuids
  device_uuids pod ctr_name =
      let key = ascend_device_resource pod.containers ctr_name in
      if key == "" then [] else annotated_uuids (lookup key pod.annotations)

  -- What one directory adds: its entry, or its name among the directories that are removed.
  abbrev pub Found : Type 0
  Found = List ContainerEntry × List String

  -- A shared memory that cannot be opened is passed over.
  unfoldable pub read_container : LivePod → String → String → String → Outcome Found
  read_container pod name uid ctr_name = elim (open_local_shmem l.shmem (l.shmem_path name)) [
    | err e ↦ returns ([], [])
    | ok bytes ↦ and_then (read_pod_stats bytes) λ stats.
        and_then (read_memory_by_device bytes) λ memory. returns (
          record {
            pod_uid = uid;
            container_name = ctr_name;
            namespace = pod.namespace;
            pod_name = pod.name;
            stats = stats;
            device_memory = memory;
            device_uuids = device_uuids pod ctr_name;
          }
              ∷ [],
          [],
        )
  ]

  unfoldable pub visit_pod : Option LivePod → String → String → String → Outcome Found
  visit_pod none name uid ctr_name = returns ([], name ∷ [])
  visit_pod (some pod) name uid ctr_name =
      if is_finished pod then returns ([], name ∷ []) else read_container pod name uid ctr_name

  unfoldable pub visit : Dict LivePod → DirEntry → Outcome Found
  unfolding visit_pod
  visit by_uid dirent =
      if not dirent.is_dir then returns ([], []) else elim (split_name dirent.name) [
        | none ↦ returns ([], [])
        | some (uid, ctr_name) ↦ visit_pod (lookup uid by_uid) dirent.name uid ctr_name
      ]

  unfoldable pub visit_all : Dict LivePod → List DirEntry → Outcome Found
  visit_all by_uid [] = returns ([], [])
  visit_all by_uid (dirent ∷ entries) = and_then (visit by_uid dirent) λ (found, removed).
      and_then (visit_all by_uid entries)
        λ (more, more_removed). returns (found ++ more, removed ++ more_removed)

  -- The entries, with the names of the directories that os.RemoveAll was called on.
  unfoldable pub list_containers : Outcome (Result (List ContainerEntry) × List String)
  list_containers = elim l.pods [
    | err e ↦ returns (err (wrap "list pods" e), [])
    | ok pods ↦ elim l.read_dir [
      | err e ↦ returns (if l.is_not_exist e then ok [] else err (wrap "read containers dir" e), [])
      | ok entries ↦
          and_then (visit_all (index_pods pods []) entries)
            λ (found, removed). returns (ok found, removed)
    ]
  ]
