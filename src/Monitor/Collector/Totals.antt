-- ===== src/Monitor/Collector/Totals.antt =====
-- internal/monitor/collector.go: the memory of the containers by device, and the hosts' metrics.
use ascend_device_plugin.Base.{
  ℕ, suc, ◌+◌, ◌%◌, ◌^◌, String, ◌==◌, false, List, [], ◌∷◌, ◌++◌, ◌≡◌, ◌≢◌, refl, ◌∙◌, ap, inl,
  inr, Option, none, some, arith, Result, ok, err, returns, get_elem?, ltb, if◌then◌else◌, eq_iff,
  Bool-cases,
}
use ascend_device_plugin.Base.Text.{itoa}
use ascend_device_plugin.Base.Dict.{Dict, lookup, insert, lookup-insert, lookup-nil}
use ascend_device_plugin.Monitor.Containers.{ContainerEntry, Listing, list_containers}
use ascend_device_plugin.Monitor.Host.{DeviceStat, Dcmi, collect_host_device_stats}
use ascend_device_plugin.Monitor.Collector.{
  Metric, Floats, or_else, add_memory, sum_uuids, sum_entries, host_used, collect_host_metrics,
  collect_pod_metrics, entry_metrics, utilizations, collect, host_gpu_desc,
  host_gpu_utilization_desc, format_device_type, host_devices,
}

-- The memory that a container uses of a device, from the position `i` of its UUIDs on.
abbrev pub held : String → ContainerEntry → ℕ → List String → ℕ
held key e i [] = 0
held key e i (uuid ∷ uuids) =
    let rest = held key e (suc i) uuids in
    if uuid == key then or_else 0 (get_elem? e.device_memory i) + rest else rest

-- The memory that all containers use of a device. A device without a UUID has none.
abbrev pub total : String → List ContainerEntry → ℕ
total key [] = 0
total key (e ∷ entries) = held key e 0 e.device_uuids + total key entries

module _ (key : String) (named : key ≢ "") where
  add_memory-lookup :
      (uuid : String) (used sum : ℕ) (sums : Dict ℕ)
      → or_else 0 (lookup key sums) ≡ sum % 2 ^ 64
      → or_else 0 (lookup key (add_memory uuid used sums))
        ≡ (sum + (if uuid == key then used else 0)) % 2 ^ 64
  unfolding add_memory
  add_memory-lookup uuid used sum sums h = elim (Bool-cases (uuid == "")) [
    | inl empty ↦
        let other : uuid == key ≡ false = ground (arith, eq_iff uuid key, eq_iff uuid "") in
        rw (add_memory, empty) (rw other (h ∙ ap (λ n. n % 2 ^ 64) (omega arith)))
    | inr named' ↦ rw (add_memory, named') (at_key (lookup-insert uuid key _ sums))
  ]
    where
      at_key :
          lookup key (insert uuid ((or_else 0 (lookup uuid sums) + used) % 2 ^ 64) sums) ≡ (
            if uuid == key
            then some ((or_else 0 (lookup uuid sums) + used) % 2 ^ 64)
            else lookup key sums)
          → or_else 0
              (lookup key (insert uuid ((or_else 0 (lookup uuid sums) + used) % 2 ^ 64) sums))
            ≡ (sum + (if uuid == key then used else 0)) % 2 ^ 64
      at_key step = elim (Bool-cases (uuid == key)) [
        | inl hit ↦
            let same : uuid ≡ key = (eq_iff uuid key).0 hit in
            let before : or_else 0 (lookup uuid sums) ≡ sum % 2 ^ 64 =
              ap (λ k. or_else 0 (lookup k sums)) same ∙ h in
            rw (step, hit) (rw before (omega arith))
        | inr miss ↦ rw (step, miss) (h ∙ ap (λ n. n % 2 ^ 64) (omega arith))
      ]

  sum_uuids-lookup :
      (e : ContainerEntry) (i : ℕ) (uuids : List String) (sum : ℕ) (sums : Dict ℕ)
      → or_else 0 (lookup key sums) ≡ sum % 2 ^ 64
      → or_else 0 (lookup key (sum_uuids e i uuids sums)) ≡ (sum + held key e i uuids) % 2 ^ 64
  unfolding sum_uuids
  sum_uuids-lookup e i [] sum sums h = h ∙ ap (λ n. n % 2 ^ 64) (omega arith)
  sum_uuids-lookup e i (uuid ∷ uuids) sum sums h =
      sum_uuids-lookup e (suc i) uuids _ _
        (add_memory-lookup uuid (or_else 0 (get_elem? e.device_memory i)) sum sums h)
      ∙ ap (λ n. n % 2 ^ 64) (ground arith)

  sum_entries-lookup :
      (entries : List ContainerEntry) (sum : ℕ) (sums : Dict ℕ)
      → or_else 0 (lookup key sums) ≡ sum % 2 ^ 64
      → or_else 0 (lookup key (sum_entries entries sums)) ≡ (sum + total key entries) % 2 ^ 64
  unfolding sum_entries
  sum_entries-lookup [] sum sums h = h ∙ ap (λ n. n % 2 ^ 64) (omega arith)
  sum_entries-lookup (e ∷ entries) sum sums h =
      sum_entries-lookup entries _ _ (sum_uuids-lookup e 0 e.device_uuids sum sums h)
      ∙ ap (λ n. n % 2 ^ 64) (omega arith)

sum_uuids-lookup_empty :
    (e : ContainerEntry) (i : ℕ) (uuids : List String) (sums : Dict ℕ)
    → lookup "" (sum_uuids e i uuids sums) ≡ lookup "" sums
unfolding sum_uuids add_memory
sum_uuids-lookup_empty e i [] sums = refl
sum_uuids-lookup_empty e i (uuid ∷ uuids) sums =
    sum_uuids-lookup_empty e (suc i) uuids _ ∙ elim (Bool-cases (uuid == "")) [
      | inl empty ↦ rw empty refl
      | inr named ↦ rw named (lookup-insert uuid "" _ sums ∙ rw named refl)
    ]

sum_entries-lookup_empty :
    (entries : List ContainerEntry) (sums : Dict ℕ)
    → lookup "" (sum_entries entries sums) ≡ lookup "" sums
unfolding sum_entries
sum_entries-lookup_empty [] sums = refl
sum_entries-lookup_empty (e ∷ entries) sums =
    sum_entries-lookup_empty entries _ ∙ sum_uuids-lookup_empty e 0 e.device_uuids sums

-- The entries of a listing; a failed one has none.
abbrev pub entries_of : Result (List ContainerEntry) → List ContainerEntry
entries_of (ok entries) = entries
entries_of (err e) = []

module _ {ℓ} {F : Type ℓ} (floats : Floats F) where
  -- The memory that a device is reported to use: of its containers where they use any, and otherwise what
  -- the driver says. A device without a UUID has no containers.
  abbrev pub reported_used : List ContainerEntry → DeviceStat → F
  reported_used entries d =
      let sum = total d.uuid entries % 2 ^ 64 in
      let in_bytes = floats.times_1024 (floats.times_1024 (floats.of_uint d.memory_used)) in
      if d.uuid == "" then in_bytes else if ltb 0 sum then floats.of_uint sum else in_bytes

  abbrev pub host_labels_of : DeviceStat → List String
  host_labels_of d = itoa d.index ∷ d.uuid ∷ format_device_type d.device_type ∷ []

  -- The two metrics of each device, in the order of the devices.
  abbrev pub reported : List ContainerEntry → List DeviceStat → List (Metric F)
  reported entries [] = []
  reported entries (d ∷ devices) =
      record { desc = host_gpu_desc; value = reported_used entries d; labels = host_labels_of d }
      ∷ record {
        desc = host_gpu_utilization_desc;
        value = floats.of_uint d.ai_core_pct;
        labels = host_labels_of d;
      }
      ∷ reported entries devices

  host_used-or_else :
      (d : DeviceStat) (sum : Option ℕ)
      → host_used floats d sum ≡ (
          if ltb 0 (or_else 0 sum)
          then floats.of_uint (or_else 0 sum)
          else floats.times_1024 (floats.times_1024 (floats.of_uint d.memory_used)))
  unfolding host_used
  host_used-or_else d none = refl
  host_used-or_else d (some sum) = refl

  host_used-total :
      (entries : List ContainerEntry) (d : DeviceStat)
      → host_used floats d (lookup d.uuid (sum_entries entries [])) ≡ reported_used entries d
  unfolding host_used
  host_used-total entries d = elim (Bool-cases (d.uuid == "")) [
    | inl empty ↦
        let no_name : d.uuid ≡ "" = (eq_iff d.uuid "").0 empty in
        let none_there =
          ap (λ k. lookup k (sum_entries entries [])) no_name
          ∙ sum_entries-lookup_empty entries []
          ∙ lookup-nil "" in
        ap (host_used floats d) none_there ∙ rw empty refl
    | inr named ↦
        let sum_there : or_else 0 (lookup d.uuid (sum_entries entries []))
            ≡ total d.uuid entries % 2 ^ 64 =
          sum_entries-lookup d.uuid (λ e. ground (arith, eq_iff d.uuid "")) entries 0 []
            (ap (or_else 0) (lookup-nil d.uuid))
          ∙ ap (λ n. n % 2 ^ 64) (omega arith) in
        host_used-or_else d (lookup d.uuid (sum_entries entries [])) ∙ rw (sum_there, named) refl
  ]

  collect_host_metrics-reported :
      (entries : List ContainerEntry) (devices : List DeviceStat)
      → collect_host_metrics floats devices (sum_entries entries []) ≡ reported entries devices
  unfolding collect_host_metrics
  collect_host_metrics-reported entries [] = refl
  collect_host_metrics-reported entries (d ∷ devices) =
      rw (host_used-total entries d, collect_host_metrics-reported entries devices) refl

  -- A scrape whose listing of the containers returns, with entries or with an error: the metrics of the
  -- entries, none on an error, and then those of each device of the driver, whose used memory is the sum
  -- modulo 2^64 over all containers of what they use of it, where this is more than 0 and the device has a
  -- UUID, and the driver's number otherwise. The directories that the listing removed stay removed.
  pub collect-reported :
      (dcmi : Dcmi) (l : Listing) (listed : Result (List ContainerEntry)) (removed : List String)
      → list_containers l ≡ returns (listed, removed)
      → let devices = host_devices (collect_host_device_stats dcmi) in
        let entries = entries_of listed in
        collect floats dcmi l
        ≡ returns (
          entry_metrics floats (utilizations floats devices []) entries ++ reported entries devices,
          removed,
        )
  unfolding collect collect_pod_metrics entry_metrics sum_entries
  collect-reported dcmi l (ok entries) removed listed = simp (
    listed,
    collect_host_metrics-reported entries (host_devices (collect_host_device_stats dcmi)),
  )
  collect-reported dcmi l (err e) removed listed = simp (
    listed,
    ← collect_host_metrics-reported [] (host_devices (collect_host_device_stats dcmi)),
    sum_entries,
  )
