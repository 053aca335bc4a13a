-- ===== src/Monitor/Collector.antt =====
-- internal/monitor/collector.go: the metrics of a scrape. Go's float64 is a parameter; a map[string]uint64
-- that is nil is the empty one, since it is only read.
pub mod Totals
pub mod Labels
use Prim.Native.String
use text.Mathlib.Text.{starts_with}
use ascend_device_plugin.Base.{
  ℕ, ℤ, pos, zero, suc, ◌+◌, ◌%◌, ◌^◌, String, ◌==◌, Bool, true, false, ◌||◌, List, [], ◌∷◌, ◌++◌,
  Option, none, some, Result, ok, err, Outcome, returns, and_then, get_elem?, ltb, eqb,
  if◌then◌else◌,
}
use ascend_device_plugin.Base.Text.{itoa}
use ascend_device_plugin.Base.Dict.{Dict, lookup, insert}
use ascend_device_plugin.Monitor.Containers.{ContainerEntry, Listing, list_containers}
use ascend_device_plugin.Monitor.Host.{DeviceStat, Dcmi, collect_host_device_stats}

-- Of a prometheus.Desc the name and the names of the variable labels.
pub record Desc : Type 0 where
  pub fq_name : String
  pub variable_labels : List String

abbrev host_labels : List String
host_labels = "device_index" ∷ "device_uuid" ∷ "device_type" ∷ []

abbrev ctr_labels : List String
ctr_labels = "namespace" ∷ "pod" ∷ "container" ∷ "vdevice_index" ∷ "device_uuid" ∷ []

abbrev pub host_gpu_desc : Desc
host_gpu_desc = record {
  fq_name = "hami_host_gpu_memory_used_bytes";
  variable_labels = host_labels;
}

abbrev pub host_gpu_utilization_desc : Desc
host_gpu_utilization_desc = record {
  fq_name = "hami_host_gpu_utilization_ratio";
  variable_labels = host_labels;
}

abbrev pub ctr_vgpu_desc : Desc
ctr_vgpu_desc = record { fq_name = "hami_vgpu_memory_used_bytes"; variable_labels = ctr_labels }

abbrev pub ctr_vgpu_limit_desc : Desc
ctr_vgpu_limit_desc = record {
  fq_name = "hami_vgpu_memory_limit_bytes";
  variable_labels = ctr_labels;
}

abbrev pub ctr_device_utilization_desc : Desc
ctr_device_utilization_desc = record {
  fq_name = "hami_container_device_utilization_ratio";
  variable_labels = ctr_labels;
}

abbrev pub ctr_device_memory_context_desc : Desc
ctr_device_memory_context_desc = record {
  fq_name = "hami_vgpu_memory_context_bytes";
  variable_labels = ctr_labels;
}

abbrev pub ctr_device_memory_module_desc : Desc
ctr_device_memory_module_desc = record {
  fq_name = "hami_vgpu_memory_module_bytes";
  variable_labels = ctr_labels;
}

abbrev pub ctr_device_memory_buffer_desc : Desc
ctr_device_memory_buffer_desc = record {
  fq_name = "hami_vgpu_memory_buffer_bytes";
  variable_labels = ctr_labels;
}

-- What Describe sends.
abbrev pub describe : List Desc
describe =
    host_gpu_desc ∷ host_gpu_utilization_desc ∷ ctr_vgpu_desc ∷ ctr_vgpu_limit_desc
    ∷ ctr_device_utilization_desc ∷ ctr_device_memory_context_desc ∷ ctr_device_memory_module_desc
    ∷ ctr_device_memory_buffer_desc ∷ []

unfoldable pub format_device_type : String → String
format_device_type device_type =
    if starts_with device_type "Ascend-" || starts_with device_type "NVIDIA-"
    then device_type
    else String.◌++◌ "Ascend-" device_type

-- float64(x) of a uint64, x * 1024, and 0.
pub record Floats {ℓ} (F : Type ℓ) : Type ℓ where
  pub of_uint : ℕ → F
  pub times_1024 : F → F
  pub zero_float : F

-- A gauge: prometheus.MustNewConstMetric by its arguments.
pub record Metric {ℓ} (F : Type ℓ) : Type ℓ where
  pub desc : Desc
  pub value : F
  pub labels : List String

abbrev pub or_else {ℓ} : {A : Type ℓ} → A → Option A → A
or_else a none = a
or_else a (some b) = b

-- `podMemByDevice[devUUID] += memoryUsed`, for a UUID that is not empty.
unfoldable pub add_memory : String → ℕ → Dict ℕ → Dict ℕ
add_memory uuid used sums =
    if uuid == "" then sums else insert uuid ((or_else 0 (lookup uuid sums) + used) % 2 ^ 64) sums

-- The loop over e.DeviceUUIDs from index `i` on, for the map.
unfoldable pub sum_uuids : ContainerEntry → ℕ → List String → Dict ℕ → Dict ℕ
unfolding add_memory
sum_uuids e i [] sums = sums
sum_uuids e i (uuid ∷ uuids) sums =
    sum_uuids e (suc i) uuids (add_memory uuid (or_else 0 (get_elem? e.device_memory i)) sums)

-- The loop over the entries, for the map.
unfoldable pub sum_entries : List ContainerEntry → Dict ℕ → Dict ℕ
unfolding sum_uuids
sum_entries [] sums = sums
sum_entries (e ∷ entries) sums = sum_entries entries (sum_uuids e 0 e.device_uuids sums)

-- A library that does not answer is logged, and there are no devices then.
unfoldable pub host_devices : Result (List DeviceStat) → List DeviceStat
host_devices (err e) = []
host_devices (ok devices) = devices

module _ {ℓ} {F : Type ℓ} (floats : Floats F) where
  unfoldable pub host_used : DeviceStat → Option ℕ → F
  host_used d none = floats.times_1024 (floats.times_1024 (floats.of_uint d.memory_used))
  host_used d (some sum) =
      if ltb 0 sum
      then floats.of_uint sum
      else floats.times_1024 (floats.times_1024 (floats.of_uint d.memory_used))

  unfoldable pub collect_host_metrics : List DeviceStat → Dict ℕ → List (Metric F)
  unfolding host_used
  collect_host_metrics [] sums = []
  collect_host_metrics (d ∷ devices) sums =
      let labels = itoa d.index ∷ d.uuid ∷ format_device_type d.device_type ∷ [] in
      record { desc = host_gpu_desc; value = host_used d (lookup d.uuid sums); labels = labels }
      ∷ record {
        desc = host_gpu_utilization_desc;
        value = floats.of_uint d.ai_core_pct;
        labels = labels;
      }
      ∷ collect_host_metrics devices sums

  -- `utilByUUID[d.UUID] = float64(d.AICorePct)` for each device.
  unfoldable pub utilizations : List DeviceStat → Dict F → Dict F
  utilizations [] by_uuid = by_uuid
  utilizations (d ∷ devices) by_uuid =
      utilizations devices (insert d.uuid (floats.of_uint d.ai_core_pct) by_uuid)

  -- What one round of the inner loop sends.
  unfoldable pub device_metrics : Dict F → ContainerEntry → ℕ → String → List (Metric F)
  device_metrics util_by_uuid e i uuid =
      let labels = e.namespace ∷ e.pod_name ∷ e.container_name ∷ itoa (pos i) ∷ uuid ∷ [] in
      let used = or_else 0 (get_elem? e.device_memory i) in
      record { desc = ctr_vgpu_desc; value = floats.of_uint used; labels = labels }
      ∷ record {
        desc = ctr_vgpu_limit_desc;
        value = floats.of_uint e.stats.memory_limit;
        labels = labels;
      }
      ∷ record {
        desc = ctr_device_utilization_desc;
        value = or_else floats.zero_float (lookup uuid util_by_uuid);
        labels = labels;
      }
      ∷ record { desc = ctr_device_memory_context_desc; value = floats.of_uint 0; labels = labels }
      ∷ record { desc = ctr_device_memory_module_desc; value = floats.of_uint 0; labels = labels }
      ∷ record { desc = ctr_device_memory_buffer_desc; value = floats.of_uint 0; labels = labels }
      ∷ []

  -- The inner loop from index `i` on, for the metrics.
  unfoldable pub uuid_metrics : Dict F → ContainerEntry → ℕ → List String → List (Metric F)
  unfolding device_metrics
  uuid_metrics util_by_uuid e i [] = []
  uuid_metrics util_by_uuid e i (uuid ∷ uuids) =
      device_metrics util_by_uuid e i uuid ++ uuid_metrics util_by_uuid e (suc i) uuids

  unfoldable pub entry_metrics : Dict F → List ContainerEntry → List (Metric F)
  unfolding uuid_metrics
  entry_metrics util_by_uuid [] = []
  entry_metrics util_by_uuid (e ∷ entries) =
      uuid_metrics util_by_uuid e 0 e.device_uuids ++ entry_metrics util_by_uuid entries

  unfoldable pub collect_pod_metrics :
      Result (List ContainerEntry) → List DeviceStat → List (Metric F) × Dict ℕ
  unfolding utilizations entry_metrics
  collect_pod_metrics (err e) devices = ([], [])
  collect_pod_metrics (ok entries) devices =
      (entry_metrics (utilizations devices []) entries, sum_entries entries [])

  -- The metrics, and the directories that were removed.
  unfoldable pub collect : Dcmi → Listing → Outcome (List (Metric F) × List String)
  unfolding collect_pod_metrics
  collect dcmi l =
      let devices = host_devices (collect_host_device_stats dcmi) in
      and_then (list_containers l) λ (listed, removed).
        let (metrics, sums) = collect_pod_metrics listed devices in
        returns (metrics ++ collect_host_metrics devices sums, removed)
