-- ===== src/Tests/Monitoring.antt =====
-- The metrics of a node with one device: a running pod, a finished one and what is left of a third.
use ascend_device_plugin.Base.{
  ℕ, pos, negsuc, zero, suc, ◌+◌, ◌*◌, ◌^◌, ◌≤◌, ◌<◌, ◌↔◌, String, true, false, ◌≡◌, ◌≢◌, refl, sym,
  ◌∙◌, ap, List, [], ◌∷◌, ◌++◌, none, some, Memᴰ, Collects, arith, length, external, ok, err,
  returns, eq_iff,
}
use ascend_device_plugin.Base.Split.{Lacks}
use ascend_device_plugin.Tests.Fixtures.{apart}
use ascend_device_plugin.Base.Text.{ends_with, itoa}
use ascend_device_plugin.Base.Dict.{insert, lookup}
use ascend_device_plugin.Server.Allocate.Response.{container_shmem_dir, host_hook_path}
use ascend_device_plugin.Monitor.Shmem.{
  open_local_shmem, read_pod_stats, read_memory_by_device, map_file, load, word, read_slots,
  read_slot, add_slot,
}
use ascend_device_plugin.Monitor.Containers.{
  ContainerEntry, LivePod, DirEntry, Listing, split_name, list_containers, visit_all, visit,
  visit_pod, read_container, index_pods, is_finished, device_uuids, annotated_uuids,
  ascend_device_resource, first_key,
}
use ascend_device_plugin.Monitor.Containers.Names.{underscore, dir_name, split_name-dir_name}
use ascend_device_plugin.Monitor.Containers.Pods.{IsUnique}
use ascend_device_plugin.Monitor.Containers.Visited.{list_containers-exact}
use ascend_device_plugin.Monitor.Containers.Described.{IsRemovedFor, IsEntryOf}
use ascend_device_plugin.Monitor.Host.{
  DeviceStat, Dcmi, memory_of, init_manager, stats_of, device_stat, ai_core_pct_of,
  collect_host_device_stats,
}
use ascend_device_plugin.Monitor.Host.Bounds.{memory_of-used}
use ascend_device_plugin.Monitor.Collector.{
  Desc, Floats, Metric, host_gpu_desc, host_gpu_utilization_desc, ctr_vgpu_desc,
  ctr_vgpu_limit_desc, ctr_device_utilization_desc, ctr_device_memory_context_desc,
  ctr_device_memory_module_desc, ctr_device_memory_buffer_desc, collect_pod_metrics,
  collect_host_metrics, uuid_metrics, device_metrics, host_used, sum_entries, sum_uuids, add_memory,
  format_device_type, describe, collect, entry_metrics, utilizations, host_devices,
}
use ascend_device_plugin.Monitor.Collector.Totals.{reported, collect-reported}
use ascend_device_plugin.Monitor.Collector.Labels.{collect-IsDescribed}
use ascend_device_plugin.Tests.Servers.{host, pod}
use ascend_device_plugin.Tests.Regions.{files, files_map}

pod_uid-Lacks : Lacks underscore pod.uid
pod_uid-Lacks = (
  apart underscore "p" (omega arith),
  (
    apart underscore "o" (omega arith),
    (
      apart underscore "d" (omega arith),
      (
        apart underscore "-" (omega arith),
        (
          apart underscore "u" (omega arith),
          (apart underscore "i" (omega arith), (apart underscore "d" (omega arith), tt)),
        ),
      ),
    ),
  ),
)

split_name-dir_name_example :
    (container_shmem_dir host pod "main" ≡ "/usr/local/hami-vnpu-core/containers/pod-uid_main")
    × (split_name (dir_name pod.uid "main") ≡ some (pod.uid, "main"))
unfolding host_hook_path
split_name-dir_name_example = split_name-dir_name host pod "main" pod_uid-Lacks

abbrev live_pod : String → String → LivePod
live_pod uid phase = record {
  uid = uid;
  namespace = "default";
  name = uid;
  phase = phase;
  containers =
      record {
        name = "main";
        limits = "cpu" ∷ "huawei.com/Ascend310P-memory" ∷ "huawei.com/Ascend310P" ∷ [];
        requests = [];
      }
      ∷ [];
  annotations = ("huawei.com/Ascend310P", "die-0") ∷ [];
}

abbrev running : LivePod
running = live_pod "u1" "Running"

abbrev finished : LivePod
finished = live_pod "u2" "Succeeded"

abbrev dir : String → DirEntry
dir name = record { name = name; is_dir = true }

-- Directories of the running, the finished and a missing pod; a file; and a directory of another name.
abbrev entries : List DirEntry
entries =
    dir "u1_main"
    ∷ dir "u2_main"
    ∷ dir "u3_main"
    ∷ record { name = "u4_main"; is_dir = false }
    ∷ dir "u5"
    ∷ []

abbrev listing : Listing
listing = record {
  pods = ok (running ∷ finished ∷ []);
  read_dir = ok entries;
  is_not_exist = λ e. true;
  shmem_path = λ name. name;
  shmem = files;
  unmarshal_uuids = λ anno. ok (anno ∷ "" ∷ []);
}

different : running.uid ≢ finished.uid
different e = let never : false ≡ true = (eq_iff running.uid finished.uid).1 e in ground arith

pods-IsUnique : IsUnique (running ∷ finished ∷ [])
pods-IsUnique p q (Memᴰ.head e) (Memᴰ.head f) same = e ∙ sym f
pods-IsUnique p q (Memᴰ.tail (Memᴰ.head e)) (Memᴰ.tail (Memᴰ.head f)) same = e ∙ sym f
pods-IsUnique p q (Memᴰ.head e) (Memᴰ.tail (Memᴰ.head f)) same =
    absurd (different (sym (ap (λ x. x.uid) e) ∙ same ∙ ap (λ x. x.uid) f))
pods-IsUnique p q (Memᴰ.tail (Memᴰ.head e)) (Memᴰ.head f) same =
    absurd (different (sym (ap (λ x. x.uid) f) ∙ sym same ∙ ap (λ x. x.uid) e))
pods-IsUnique p q (Memᴰ.tail (Memᴰ.tail m)) n same = elim m [ ]
pods-IsUnique p q m (Memᴰ.tail (Memᴰ.tail n)) same = elim n [ ]

list_containers-exact_example :
    (found : List ContainerEntry) × (removed : List String) × (list_containers listing
      ≡ returns (ok found, removed))
    × Collects (IsRemovedFor listing (running ∷ finished ∷ [])) entries removed
    × Collects (IsEntryOf listing (running ∷ finished ∷ [])) entries found
list_containers-exact_example =
    list_containers-exact listing (running ∷ finished ∷ []) pods-IsUnique files_map entries refl
      refl

abbrev main_entry : ContainerEntry
main_entry = record {
  pod_uid = "u1";
  container_name = "main";
  namespace = "default";
  pod_name = "u1";
  stats = record { memory_used = 0; memory_limit = 0; has_active_workers = false };
  device_memory = 0 ∷ 0 ∷ 0 ∷ 0 ∷ 0 ∷ 0 ∷ 0 ∷ 0 ∷ [];
  device_uuids = "die-0" ∷ [];
}

listed : list_containers listing ≡ returns (ok (main_entry ∷ []), "u2_main" ∷ "u3_main" ∷ [])
unfolding list_containers visit_all visit visit_pod read_container split_name index_pods insert
    lookup is_finished device_uuids annotated_uuids ascend_device_resource first_key
    open_local_shmem map_file load word read_pod_stats read_memory_by_device read_slots read_slot
    add_slot ends_with
listed = refl

-- One device of two; it has 65536 MB, of which 1024 are used.
abbrev dcmi : Dcmi
dcmi = record {
  init_run_logger = none;
  dc_init = none;
  logic_ids = ok (pos 0 ∷ pos 7 ∷ []);
  card_and_device = λ id. elim id [
    | pos zero ↦ ok (pos 0, pos 0)
    | pos (suc n) ↦ err (external "no such card")
    | negsuc n ↦ err (external "no such card")
  ];
  die_id = λ card device. "die-0";
  product_type = λ card device. "310P3";
  memory_info = λ card device. ok (record { memory_size = 65536; memory_available = 64512 });
  ai_core_rate = λ card device. ok (pos 40);
}

abbrev stat : DeviceStat
stat = record {
  index = pos 0;
  uuid = "die-0";
  device_type = "310P3";
  memory_used = 1024;
  memory_total = 65536;
  ai_core_pct = 40;
}

stats_read : collect_host_device_stats dcmi ≡ ok (stat ∷ [])
unfolding collect_host_device_stats init_manager stats_of device_stat memory_of ai_core_pct_of
stats_read = refl

started : init_manager dcmi ≡ none
unfolding init_manager
started = refl

memory_of-used_example :
    let (total, used) = memory_of dcmi (pos 0) (pos 0) in
    (total ≡ 65536)
    × (used < 2 ^ 64)
    × ((used ≤ total) ↔ (64512 ≤ total))
    × (64512 ≤ total → used + 64512 ≡ total)
memory_of-used_example =
    memory_of-used dcmi (pos 0) (pos 0) (record { memory_size = 65536; memory_available = 64512 })
      refl (omega arith) (omega arith)

-- A float64 by its value.
abbrev floats : Floats ℕ
floats = record { of_uint = λ n. n; times_1024 = λ x. x * 1024; zero_float = 0 }

collect-reported_example :
    let devices = host_devices (collect_host_device_stats dcmi) in
    collect floats dcmi listing
    ≡ returns (
      entry_metrics floats (utilizations floats devices []) (main_entry ∷ [])
          ++ reported floats (main_entry ∷ []) devices,
      "u2_main" ∷ "u3_main" ∷ [],
    )
collect-reported_example =
    collect-reported floats dcmi listing (ok (main_entry ∷ [])) ("u2_main" ∷ "u3_main" ∷ []) listed

-- A gauge of the container, and one of the device.
abbrev gauge : Desc → ℕ → Metric ℕ
gauge desc value = record {
  desc = desc;
  value = value;
  labels = "default" ∷ "u1" ∷ "main" ∷ "0" ∷ "die-0" ∷ [];
}

abbrev host_gauge : Desc → ℕ → Metric ℕ
host_gauge desc value = record {
  desc = desc;
  value = value;
  labels = "0" ∷ "die-0" ∷ "Ascend-310P3" ∷ [];
}

abbrev gauges : List (Metric ℕ)
gauges =
    gauge ctr_vgpu_desc 0
    ∷ gauge ctr_vgpu_limit_desc 0
    ∷ gauge ctr_device_utilization_desc 40
    ∷ gauge ctr_device_memory_context_desc 0
    ∷ gauge ctr_device_memory_module_desc 0
    ∷ gauge ctr_device_memory_buffer_desc 0
    ∷ host_gauge host_gpu_desc 1073741824
    ∷ host_gauge host_gpu_utilization_desc 40
    ∷ []

scraped : collect floats dcmi listing ≡ returns (gauges, "u2_main" ∷ "u3_main" ∷ [])
unfolding collect collect_pod_metrics utilizations entry_metrics uuid_metrics device_metrics
    collect_host_metrics host_used sum_entries sum_uuids add_memory host_devices format_device_type
    lookup insert itoa
scraped = rw (listed, collect) (rw stats_read refl)

collect-IsDescribed_example :
    Memᴰ ctr_vgpu_desc describe
    × (length (gauge ctr_vgpu_desc 0).labels ≡ length ctr_vgpu_desc.variable_labels)
collect-IsDescribed_example =
    collect-IsDescribed floats dcmi listing gauges ("u2_main" ∷ "u3_main" ∷ []) scraped
      (gauge ctr_vgpu_desc 0) (Memᴰ.head refl)
