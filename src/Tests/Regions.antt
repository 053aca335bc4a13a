-- ===== src/Tests/Regions.antt =====
-- The shared memory of a container: an empty file, and one with three process slots.
use ascend_device_plugin.Base.{
  ℕ, zero, suc, ◌%◌, ◌^◌, ◌<◌, String, ◌==◌, true, ◌≡◌, refl, sym, ◌∙◌, ap, List, [], ◌∷◌, some,
  arith, length, get_elem?, external, ok, err, returns, if◌then◌else◌,
}
use ascend_device_plugin.Config.{Bytes}
use ascend_device_plugin.Monitor.Shmem.{
  PodStats, ShmemFiles, open_local_shmem, read_pod_stats, read_memory_by_device,
}
use ascend_device_plugin.Monitor.Shmem.Bounds.{IsSums, open_local_shmem-reads}
use ascend_device_plugin.Monitor.Shmem.Layout.{Slot}
use ascend_device_plugin.Monitor.Shmem.Region.{
  Region, IsRegion, region_bytes, usage, region_bytes-read,
}

abbrev pub zeros : ℕ → Bytes
zeros zero = []
zeros (suc n) = 0 ∷ zeros n

length-zeros : (n : ℕ) → length (zeros n) ≡ n
length-zeros zero = refl
length-zeros (suc n) = ap suc (length-zeros n)

-- Files of one empty process slot; one of them does not exist.
abbrev pub files : ShmemFiles
files = record {
  open_file = λ path. if path == "u4" then err (external "no such file") else ok (ok 1160);
  mmap = λ path size. ok (zeros size);
}

pub files_map :
    (path : String) (size : ℕ) (bytes : Bytes)
    → files.mmap path size ≡ ok bytes
    → length bytes ≡ size
files_map path size bytes h =
    let same : zeros size ≡ bytes = ground arith in sym (ap length same) ∙ length-zeros size

opened : open_local_shmem files "u1" ≡ ok (zeros 1160)
unfolding open_local_shmem
opened = refl

open_local_shmem-reads_example :
    ((stats : PodStats) × (read_pod_stats (zeros 1160) ≡ returns stats))
    × ((sums : List ℕ) × (read_memory_by_device (zeros 1160) ≡ returns sums) × IsSums 8 sums)
open_local_shmem-reads_example = open_local_shmem-reads files files_map "u1" (zeros 1160) opened

abbrev slot : ℕ → Slot
slot is_active = record {
  pid_bytes = zeros 8;
  hbm_used = 7 ∷ 18446744073709551615 ∷ 0 ∷ 0 ∷ 0 ∷ 0 ∷ 0 ∷ 0 ∷ [];
  is_active = is_active;
  padding = zeros 4;
}

-- Three slots, of which two are active.
abbrev region : Region
region = record {
  limit = 1073741824;
  used = 4096;
  prio_bytes = zeros 32;
  active_workers = 2;
  report_bytes = zeros 1028;
  slots = slot 1 ∷ slot 0 ∷ slot 1 ∷ [];
}

region-IsRegion : IsRegion region
region-IsRegion = ground arith

region_bytes-read_example :
    (read_pod_stats (region_bytes region)
      ≡ returns
          (record { memory_used = 4096; memory_limit = 1073741824; has_active_workers = true }))
    × ((sums : List ℕ) × (read_memory_by_device (region_bytes region) ≡ returns sums)
        × ((d : ℕ) → d < 8 → get_elem? sums d ≡ some (usage d region.slots % 2 ^ 64)))
region_bytes-read_example = region_bytes-read region region-IsRegion
