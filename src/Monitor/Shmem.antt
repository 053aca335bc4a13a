-- ===== src/Monitor/Shmem.antt =====
-- internal/monitor/registry.go: the shared memory of a container, read at fixed offsets. The bytes are
-- those of one moment, although the container goes on writing; a number is little-endian, as on the
-- nodes' processors, and a read that leaves the mapping is a panic.
pub mod Bounds
pub mod Layout
pub mod Region
use ascend_device_plugin.Base.{
  ℕ, zero, suc, ◌+◌, ◌*◌, ◌%◌, ◌^◌, String, Bool, true, false, not, List, [], ◌∷◌, Option, none,
  some, Outcome, returns, panics, and_then, Result, ok, err, Error, message, wrap, ◌>>=◌, or_wrap,
  length, drop, ltb, eqb, if◌then◌else◌, pos, ◌++◌,
}
use Prim.Native.String
use mathlib.Core.Option.{map}
use ascend_device_plugin.Base.Text.{itoa}
use ascend_device_plugin.Config.{Bytes}

abbrev pub mem_limit_offset : ℕ
mem_limit_offset = 0

abbrev pub mem_used_offset : ℕ
mem_used_offset = 8

abbrev pub active_workers_offset : ℕ
active_workers_offset = 48

abbrev pub proc_slot_size : ℕ
proc_slot_size = 80

abbrev pub proc_slot_hbm_offset : ℕ
proc_slot_hbm_offset = 8

abbrev pub proc_slot_active : ℕ
proc_slot_active = 72

abbrev pub procs_offset : ℕ
procs_offset = 1080

abbrev pub procs_max : ℕ
procs_max = 64

pub record PodStats : Type 0 where
  pub memory_used : ℕ
  pub memory_limit : ℕ
  pub has_active_workers : Bool

-- The number that the first `n` bytes stand for.
unfoldable pub word : ℕ → Bytes → Option ℕ
word zero bytes = some 0
word (suc n) [] = none
word (suc n) (b ∷ bytes) = map (λ v. b + 256 * v) (word n bytes)

-- atomic.LoadUint32 and LoadUint64 at &data[offset], for n = 4 and n = 8.
unfoldable pub load : ℕ → Bytes → ℕ → Outcome ℕ
load n bytes offset = elim (word n (drop offset bytes)) [ none ↦ panics | some v ↦ returns v ]

-- What OpenLocalShmem calls: os.OpenFile with Stat, whose second part is the file's size, and the mapping.
pub record ShmemFiles : Type 0 where
  pub open_file : String → Result (Result ℕ)
  pub mmap : String → ℕ → Result Bytes

abbrev size_error : ℕ → Error
size_error size = message (String.◌++◌ "file too small: " (String.◌++◌ (itoa (pos size)) " bytes"))

unfoldable pub map_file : ShmemFiles → String → ℕ → Result Bytes
map_file f path size =
    if ltb size (procs_offset + proc_slot_size)
    then err (size_error size)
    else or_wrap "mmap" (f.mmap path size)

unfoldable pub open_local_shmem : ShmemFiles → String → Result Bytes
unfolding map_file
open_local_shmem f path = do
  stat ← or_wrap (String.◌++◌ "open " path) (f.open_file path)
  size ← stat
  map_file f path size

unfoldable pub read_pod_stats : Bytes → Outcome PodStats
read_pod_stats bytes = and_then (load 8 bytes mem_used_offset) λ used.
    and_then (load 8 bytes mem_limit_offset) λ limit.
      and_then (load 4 bytes active_workers_offset) λ workers. returns (record {
        memory_used = used;
        memory_limit = limit;
        has_active_workers = not (eqb workers 0);
      })

-- The inner loop, from device `d` on; `sums` are the elements of devMem from there.
unfoldable pub add_slot : Bytes → ℕ → ℕ → List ℕ → Outcome (List ℕ)
add_slot bytes base d [] = returns []
add_slot bytes base d (sum ∷ sums) =
    and_then (load 8 bytes (base + proc_slot_hbm_offset + d * 8)) λ used.
      and_then (add_slot bytes base (suc d) sums) λ rest. returns ((sum + used) % 2 ^ 64 ∷ rest)

-- A slot is skipped where no process uses it.
unfoldable pub read_slot : Bytes → ℕ → List ℕ → Outcome (List ℕ)
unfolding add_slot
read_slot bytes base sums =
    and_then (load 4 bytes (base + proc_slot_active))
      λ is_active. if eqb is_active 0 then returns sums else add_slot bytes base 0 sums

-- The outer loop, with the rounds that are left, from slot `i` on.
unfoldable pub read_slots : Bytes → ℕ → ℕ → List ℕ → Outcome (List ℕ)
read_slots bytes zero i sums = returns sums
read_slots bytes (suc rounds) i sums =
    let base = procs_offset + i * proc_slot_size in
    elim (ltb (length bytes) (base + proc_slot_size)) [
      | true ↦ returns sums
      | false ↦ and_then (read_slot bytes base sums) (read_slots bytes rounds (suc i))
    ]

abbrev pub no_memory : List ℕ
no_memory = 0 ∷ 0 ∷ 0 ∷ 0 ∷ 0 ∷ 0 ∷ 0 ∷ 0 ∷ []

unfoldable pub read_memory_by_device : Bytes → Outcome (List ℕ)
unfolding read_slots
read_memory_by_device bytes = read_slots bytes procs_max 0 no_memory
