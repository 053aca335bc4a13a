-- ===== src/Monitor/Shmem/Bounds.antt =====
-- internal/monitor/registry.go: no read leaves the mapping, and what the numbers are bounded by.
use Prim.Native.String
use ascend_device_plugin.Base.{
  ℕ, zero, suc, ◌+◌, ◌*◌, ◌%◌, ◌^◌, ◌≤◌, ◌<◌, String, not, ◌≡◌, refl, inl, inr, List, [], ◌∷◌, some,
  returns, ok, length, drop, length-drop, ltb, eqb, or_wrap, ap, ◌∙◌, arith, Bool-cases, >>=-eq-ok,
}
use ascend_device_plugin.Config.{Bytes}
use ascend_device_plugin.Monitor.Shmem.{
  PodStats, word, load, ShmemFiles, map_file, open_local_shmem, read_pod_stats, add_slot, read_slot,
  read_slots, no_memory, read_memory_by_device,
}

word_found : (n : ℕ) (bytes : Bytes) → n ≤ length bytes → (v : ℕ) × (word n bytes ≡ some v)
unfolding word
word_found zero bytes h = (0, refl)
word_found (suc n) [] h = absurd (omega arith)
word_found (suc n) (b ∷ bytes) h =
    let (v, e) = word_found n bytes (omega arith) in (b + 256 * v, rw e refl)

load_found :
    (n : ℕ) (bytes : Bytes) (offset : ℕ)
    → offset + n ≤ length bytes
    → (v : ℕ) × (load n bytes offset ≡ returns v)
unfolding load
load_found n bytes offset h =
    let (v, e) = word_found n (drop offset bytes) (omega (arith, length-drop {0} offset bytes)) in
    (v, rw (e, load) refl)

abbrev pub AllBelow : ℕ → List ℕ → Type 0
AllBelow m [] = Unit {0}
AllBelow m (x ∷ xs) = (x < m) × AllBelow m xs

-- A sum for each device, each a uint64.
abbrev pub IsSums : ℕ → List ℕ → Type 0
IsSums n sums = (length sums ≡ n) × AllBelow (2 ^ 64) sums

add_slot_found :
    (bytes : Bytes) (base d : ℕ) (sums : List ℕ)
    → base + 8 + (d + length sums) * 8 ≤ length bytes
    → (sums' : List ℕ) × (add_slot bytes base d sums ≡ returns sums') × IsSums (length sums) sums'
unfolding add_slot
add_slot_found bytes base d [] h = ([], refl, (refl, tt))
add_slot_found bytes base d (sum ∷ sums) h =
    let (used, p) = load_found 8 bytes (base + 8 + d * 8) (omega arith) in
    let (rest, q, (len, bound)) = add_slot_found bytes base (suc d) sums (omega arith) in
    ((sum + used) % 2 ^ 64 ∷ rest, rw (p, add_slot) (rw q refl), (ap suc len, (omega arith, bound)))

read_slot_found :
    (bytes : Bytes) (base : ℕ) (sums : List ℕ)
    → base + 80 ≤ length bytes
    → IsSums 8 sums
    → (sums' : List ℕ) × (read_slot bytes base sums ≡ returns sums') × IsSums 8 sums'
unfolding read_slot
read_slot_found bytes base sums h (len, bound) =
    let (is_active, p) = load_found 4 bytes (base + 72) (omega arith) in
    elim (Bool-cases (eqb is_active 0)) [
      | inl free ↦ (sums, rw (p, read_slot) (rw free refl), (len, bound))
      | inr used ↦
          let (sums', q, (len', bound')) = add_slot_found bytes base 0 sums (omega arith) in
          (sums', rw (p, read_slot) (rw used q), (len' ∙ len, bound'))
    ]

read_slots_found :
    (bytes : Bytes) (rounds i : ℕ) (sums : List ℕ)
    → IsSums 8 sums
    → (sums' : List ℕ) × (read_slots bytes rounds i sums ≡ returns sums') × IsSums 8 sums'
unfolding read_slots
read_slots_found bytes zero i sums h = (sums, refl, h)
read_slots_found bytes (suc rounds) i sums h =
    let base : ℕ = 1080 + i * 80 in
    elim (Bool-cases (ltb (length bytes) (base + 80))) [
      | inl short ↦ (sums, rw (short, read_slots) refl, h)
      | inr long ↦
          let (sums', p, h') = read_slot_found bytes base sums (ground arith) h in
          let (last, q, h'') = read_slots_found bytes rounds (suc i) sums' h' in
          (last, rw (long, read_slots) (rw p q), h'')
    ]

read_pod_stats_found :
    (bytes : Bytes)
    → 52 ≤ length bytes
    → (stats : PodStats) × (read_pod_stats bytes ≡ returns stats)
unfolding read_pod_stats
read_pod_stats_found bytes h =
    let (used, p) = load_found 8 bytes 8 (omega arith) in
    let (limit, q) = load_found 8 bytes 0 (omega arith) in
    let (workers, r) = load_found 4 bytes 48 (omega arith) in
    (
      record { memory_used = used; memory_limit = limit; has_active_workers = not (eqb workers 0) },
      rw (p, read_pod_stats) (rw q (rw r refl)),
    )

map_file-length :
    (f : ShmemFiles) (path : String) (size : ℕ) (bytes : Bytes)
    → map_file f path size ≡ ok bytes
    → (1160 ≤ size) × (f.mmap path size ≡ ok bytes)
unfolding map_file
map_file-length f path size bytes h = ground arith

-- Where a mapping is as long as it was asked to be, OpenLocalShmem gives only mappings that can be
-- read: ReadPodStats and ReadMemoryByDevice do not leave them, and the latter gives one uint64 for each
-- of the eight devices.
pub open_local_shmem-reads :
    (f : ShmemFiles)
    → ((path : String) (size : ℕ) (bytes : Bytes)
        → f.mmap path size ≡ ok bytes
        → length bytes ≡ size)
    → (path : String) (bytes : Bytes) → open_local_shmem f path ≡ ok bytes
    → ((stats : PodStats) × (read_pod_stats bytes ≡ returns stats))
      × ((sums : List ℕ) × (read_memory_by_device bytes ≡ returns sums) × IsSums 8 sums)
unfolding open_local_shmem read_memory_by_device
open_local_shmem-reads f maps path bytes h =
    let (stat, p, h') = >>=-eq-ok (or_wrap (String.◌++◌ "open " path) (f.open_file path)) _ h in
    let (size, q, h'') = >>=-eq-ok stat _ h' in
    let (large, mapped) = map_file-length f path size bytes h'' in
    let same = maps path size bytes mapped in
    (
      read_pod_stats_found bytes (omega arith),
      read_slots_found bytes 64 0 no_memory (refl, omega arith),
    )
