-- ===== src/Monitor/Containers/Described.antt =====
-- internal/monitor/container.go, ListContainers: what a directory is removed for and what an entry says.
use ascend_device_plugin.Base.{
  ℕ, String, true, false, ◌≡◌, ◌↔◌, List, [], ◌∷◌, some, Memᴰ, mem-singleton, Outcome, returns, ok,
}
use ascend_device_plugin.Config.{Bytes}
use ascend_device_plugin.Monitor.Shmem.{
  PodStats, open_local_shmem, read_pod_stats, read_memory_by_device,
}
use ascend_device_plugin.Monitor.Containers.{
  LivePod, ContainerEntry, DirEntry, Listing, split_name, is_finished, device_uuids,
}

module _ (l : Listing) (pods : List LivePod) where
  -- The directory belongs to a container, and every pod with its uid is finished: in particular where
  -- there is none.
  abbrev pub IsStale : DirEntry → Type 0
  IsStale dirent =
      (dirent.is_dir ≡ true)
      × ((uid ctr_name : String) × (split_name dirent.name ≡ some (uid, ctr_name))
          × ((pod : LivePod) → Memᴰ pod pods → pod.uid ≡ uid → is_finished pod ≡ true))

  abbrev pub IsRemovedFor : DirEntry → String → Type 0
  IsRemovedFor dirent name = (name ≡ dirent.name) × IsStale dirent

  abbrev pub entry_of : LivePod → String → PodStats → List ℕ → ContainerEntry
  entry_of pod ctr_name stats memory = record {
    pod_uid = pod.uid;
    container_name = ctr_name;
    namespace = pod.namespace;
    pod_name = pod.name;
    stats = stats;
    device_memory = memory;
    device_uuids = device_uuids l pod ctr_name;
  }

  -- The directory belongs to a container of a pod that is not finished, its shared memory can be opened,
  -- and the entry says what is read there.
  abbrev pub IsEntryOf : DirEntry → ContainerEntry → Type 0
  IsEntryOf dirent e =
      (dirent.is_dir ≡ true)
      × ((pod : LivePod) × (ctr_name : String) × (bytes : Bytes) × (stats : PodStats)
          × (memory : List ℕ) × Memᴰ pod pods
          × (is_finished pod ≡ false)
          × (split_name dirent.name ≡ some (pod.uid, ctr_name))
          × (open_local_shmem l.shmem (l.shmem_path dirent.name) ≡ ok bytes)
          × (read_pod_stats bytes ≡ returns stats)
          × (read_memory_by_device bytes ≡ returns memory)
          × (e ≡ entry_of pod ctr_name stats memory))

  abbrev pub Visits : DirEntry → Outcome (List ContainerEntry × List String) → Type 0
  Visits dirent r =
      (found : List ContainerEntry) × (removed : List String) × (r ≡ returns (found, removed))
      × ((name : String) → Memᴰ name removed ↔ IsRemovedFor dirent name)
      × ((e : ContainerEntry) → Memᴰ e found ↔ IsEntryOf dirent e)

  pub nothing :
      (dirent : DirEntry) (r : Outcome (List ContainerEntry × List String))
      → r ≡ returns ([], [])
      → ¬ IsStale dirent
      → ((e : ContainerEntry) → ¬ IsEntryOf dirent e)
      → Visits dirent r
  nothing dirent r p fresh no_entry = (
    [],
    [],
    p,
    λ name. (λ m. elim m [ ], λ (e, stale). absurd (fresh stale)),
    λ e. (λ m. elim m [ ], λ is_entry. absurd (no_entry e is_entry)),
  )

  pub removes :
      (dirent : DirEntry) (r : Outcome (List ContainerEntry × List String))
      → r ≡ returns ([], dirent.name ∷ [])
      → IsStale dirent
      → ((e : ContainerEntry) → ¬ IsEntryOf dirent e)
      → Visits dirent r
  removes dirent r p stale no_entry = (
    [],
    dirent.name ∷ [],
    p,
    λ name. (λ m. (mem-singleton m, stale), λ (e, _). Memᴰ.head e),
    λ e. (λ m. elim m [ ], λ is_entry. absurd (no_entry e is_entry)),
  )
