-- ===== src/Monitor/Containers/Visited.antt =====
-- internal/monitor/container.go, ListContainers: which directories are removed and which are reported.
use ascend_device_plugin.Base.{
  ℕ, String, true, false, ◌≡◌, refl, sym, ◌∙◌, ap, subst, inl, inr, List, [], ◌∷◌, ◌++◌, some, Memᴰ,
  mem-singleton, Collects, Collects-nil, Collects-cons, returns, ok, length, arith, Bool-cases,
  Option-cases, Result-cases,
}
use ascend_device_plugin.Base.Dict.{lookup}
use ascend_device_plugin.Config.{Bytes}
use ascend_device_plugin.Monitor.Shmem.{
  PodStats, open_local_shmem, read_pod_stats, read_memory_by_device,
}
use ascend_device_plugin.Monitor.Shmem.Bounds.{open_local_shmem-reads}
use ascend_device_plugin.Monitor.Containers.{
  LivePod, ContainerEntry, DirEntry, Listing, split_name, index_pods, is_finished, read_container,
  visit_pod, visit, visit_all, list_containers,
}
use ascend_device_plugin.Monitor.Containers.Pods.{IsUnique, index_pods-cases}
use ascend_device_plugin.Monitor.Containers.Described.{
  IsStale, IsRemovedFor, entry_of, IsEntryOf, Visits, nothing, removes,
}

module _ (l : Listing) (pods : List LivePod) where
  listing :
      (entries : List DirEntry) (found : List ContainerEntry) (removed : List String)
      → l.pods ≡ ok pods
      → l.read_dir ≡ ok entries
      → visit_all l (index_pods pods []) entries ≡ returns (found, removed)
      → list_containers l ≡ returns (ok found, removed)
  unfolding list_containers
  listing entries found removed listed read all = ground arith

  module _ (unique : IsUnique pods)
      (maps : (path : String) (size : ℕ) (bytes : Bytes)
        → l.shmem.mmap path size ≡ ok bytes
        → length bytes ≡ size) where
    one_entry :
        (dirent : DirEntry) (pod : LivePod) (ctr_name : String) (bytes : Bytes) (stats : PodStats)
        (memory : List ℕ)
        → split_name dirent.name ≡ some (pod.uid, ctr_name)
        → Memᴰ pod pods
        → open_local_shmem l.shmem (l.shmem_path dirent.name) ≡ ok bytes
        → read_pod_stats bytes ≡ returns stats
        → read_memory_by_device bytes ≡ returns memory
        → (x : ContainerEntry) → IsEntryOf l pods dirent x
        → x ≡ entry_of l pods pod ctr_name stats memory
    one_entry dirent pod ctr_name bytes stats memory split there opened s m x
          (_, (q, name, bytes', stats', memory', q_there, _, q_split, q_opened, q_s, q_m, e)) =
        let uid_same : q.uid ≡ pod.uid = ground arith in
        let name_same : name ≡ ctr_name = ground arith in
        let pod_same : q ≡ pod = unique q pod q_there there uid_same in
        let bytes_same : bytes' ≡ bytes = ground arith in
        let s' : returns stats' ≡ returns stats = sym q_s ∙ ap read_pod_stats bytes_same ∙ s in
        let m' : returns memory' ≡ returns memory =
          sym q_m ∙ ap read_memory_by_device bytes_same ∙ m in
        let stats_same : stats' ≡ stats = ground arith in
        let memory_same : memory' ≡ memory = ground arith in
        rw (e, pod_same, name_same, stats_same, memory_same) refl

    live_of :
        (dirent : DirEntry) (uid ctr_name : String) (x : ContainerEntry)
        → split_name dirent.name ≡ some (uid, ctr_name)
        → IsEntryOf l pods dirent x
        → (q : LivePod) × Memᴰ q pods × (q.uid ≡ uid) × (is_finished q ≡ false)
    live_of dirent uid ctr_name x split
          (_, (q, name, bytes, stats, memory, q_there, q_live, q_split, q_opened, q_s, q_m, e)) =
        (q, q_there, ground arith, q_live)

    read_container-Visits :
        (dirent : DirEntry) (pod : LivePod) (ctr_name : String)
        → dirent.is_dir ≡ true
        → split_name dirent.name ≡ some (pod.uid, ctr_name)
        → Memᴰ pod pods
        → is_finished pod ≡ false
        → Visits l pods dirent (read_container l pod dirent.name pod.uid ctr_name)
    unfolding read_container
    read_container-Visits dirent pod ctr_name dir split there live =
        elim (Result-cases (open_local_shmem l.shmem (l.shmem_path dirent.name))) [
          | inr (e, closed) ↦
              nothing l pods dirent _ (rw (closed, read_container) refl) fresh
                λ x (_, (_, _, bytes, _, _, _, _, _, opened, _, _, _)). ground arith
          | inl (bytes, opened) ↦
              let ((stats, s), (memory, m, _)) =
                open_local_shmem-reads l.shmem maps (l.shmem_path dirent.name) bytes opened in
              (
                entry_of l pods pod ctr_name stats memory ∷ [],
                [],
                rw (opened, read_container) (rw (s, m) refl),
                λ name. (λ k. elim k [ ], λ (_, stale). absurd (fresh stale)),
                λ x. (
                  λ k. (
                    dir,
                    (
                      pod,
                      ctr_name,
                      bytes,
                      stats,
                      memory,
                      there,
                      live,
                      split,
                      opened,
                      s,
                      m,
                      mem-singleton k,
                    ),
                  ),
                  λ is_entry. Memᴰ.head (
                      one_entry dirent pod ctr_name bytes stats memory split there opened s m x
                        is_entry),
                ),
              )
        ]
      where
        fresh : ¬ IsStale l pods dirent
        fresh (_, (uid, name, q_split, all)) =
            let finished = all pod there (ground arith) in ground arith

    visit_pod-Visits :
        (dirent : DirEntry) (uid ctr_name : String)
        → dirent.is_dir ≡ true
        → split_name dirent.name ≡ some (uid, ctr_name)
        → Visits l pods dirent
            (visit_pod l (lookup uid (index_pods pods [])) dirent.name uid ctr_name)
    unfolding visit_pod
    visit_pod-Visits dirent uid ctr_name dir split = elim (index_pods-cases uid pods) [
      | inl (gone, nobody) ↦ rw gone (
          removes l pods dirent _ refl
            (dir, (uid, ctr_name, split, λ pod m e. absurd (nobody pod m e)))
            λ x is_entry.
              let (pod, there, same, _) = live_of dirent uid ctr_name x split is_entry in
              nobody pod there same)
      | inr (pod, found, there, same) ↦ elim (Bool-cases (is_finished pod)) [
        | inl finished ↦ rw found (
            rw (finished, visit_pod)
              (removes l pods dirent _ refl
                (
                  dir,
                  (
                    uid,
                    ctr_name,
                    split,
                    λ q m e.
                        let q_same : q ≡ pod = unique q pod m there (e ∙ sym same) in
                        ap is_finished q_same ∙ finished,
                  ),
                )
                λ x is_entry.
                  let (q, q_there, e, live) = live_of dirent uid ctr_name x split is_entry in
                  let q_same : q ≡ pod = unique q pod q_there there (e ∙ sym same) in
                  let no : is_finished pod ≡ false = sym (ap is_finished q_same) ∙ live in
                  ground arith))
        | inr live ↦ rw found (
            rw (live, visit_pod)
              (rw (← same)
                (read_container-Visits dirent pod ctr_name dir (rw same split) there live)))
      ]
    ]

    visit-Visits : (dirent : DirEntry) → Visits l pods dirent (visit l (index_pods pods []) dirent)
    unfolding visit
    visit-Visits dirent = elim (Bool-cases dirent.is_dir) [
      | inr file ↦
          nothing l pods dirent _ (rw (file, visit) refl) (λ (dir, _). ground arith)
            (λ e (dir, _). ground arith)
      | inl dir ↦ elim (Option-cases (split_name dirent.name)) [
        | inl whole ↦
            nothing l pods dirent _ (rw (dir, visit) (rw whole refl))
              (λ (_, (_, _, split, _)). ground arith)
              λ e (_, (q, name, bytes, stats, memory, _, _, split, _, _, _, _)). ground arith
        | inr ((uid, ctr_name), split) ↦
            let step : visit l (index_pods pods []) dirent
                ≡ visit_pod l (lookup uid (index_pods pods [])) dirent.name uid ctr_name =
              rw (dir, visit) (rw split refl) in
            subst (Visits l pods dirent) (sym step) (visit_pod-Visits dirent uid ctr_name dir split)
      ]
    ]

    visit_all-Collects :
        (entries : List DirEntry)
        → (found : List ContainerEntry) × (removed : List String) × (visit_all l
              (index_pods pods [])
              entries
            ≡ returns (found, removed))
          × Collects (IsRemovedFor l pods) entries removed
          × Collects (IsEntryOf l pods) entries found
    unfolding visit_all
    visit_all-Collects [] = ([], [], refl, Collects-nil _, Collects-nil _)
    visit_all-Collects (dirent ∷ entries) =
        let (found, removed, one, stale, here) = visit-Visits dirent in
        let (more, more_removed, rest, more_stale, more_here) = visit_all-Collects entries in
        (
          found ++ more,
          removed ++ more_removed,
          rw (one, rest) refl,
          Collects-cons _ stale more_stale,
          Collects-cons _ here more_here,
        )

    -- With a unique uid for each pod, and a mapping as long as it was asked for: listing the containers
    -- returns, the names of the removed directories are those of the directories of finished and of
    -- missing pods, and the entries are those of the directories whose pod runs and whose shared memory
    -- opens.
    pub list_containers-exact :
        (entries : List DirEntry)
        → l.pods ≡ ok pods
        → l.read_dir ≡ ok entries
        → (found : List ContainerEntry) × (removed : List String) × (list_containers l
            ≡ returns (ok found, removed))
          × Collects (IsRemovedFor l pods) entries removed
          × Collects (IsEntryOf l pods) entries found
    list_containers-exact entries listed read =
        let (found, removed, all, stale, here) = visit_all-Collects entries in
        (found, removed, listing entries found removed listed read all, stale, here)
