-- ===== src/Monitor/Shmem/Region.antt =====
-- internal/monitor/registry.go: reading back a region that is laid out as the limiter does it.
use mathlib.Core.List.{append_assoc}
use ascend_device_plugin.Base.{
  ℕ, zero, suc, ◌+◌, ◌%◌, ◌^◌, ◌≤◌, ◌<◌, not, ◌≡◌, refl, ap, ◌∙◌, inl, inr, List, [], ◌∷◌, ◌++◌,
  none, some, returns, length, length-append, get_elem?, eqb, if◌then◌else◌, arith, Bool-cases,
}
use ascend_device_plugin.Config.{Bytes}
use ascend_device_plugin.Monitor.Shmem.{load, read_pod_stats, no_memory, read_memory_by_device}
use ascend_device_plugin.Monitor.Shmem.Layout.{
  le_bytes, load-le_bytes, fits8, fits4, Slot, AllSlots, all_slot_bytes, add_words, account_all,
  read_slots-account_all,
}

pub record Region : Type 0 where
  pub limit : ℕ
  pub used : ℕ
  pub prio_bytes : Bytes
  pub active_workers : ℕ
  pub report_bytes : Bytes
  pub slots : List Slot

-- The limiter's LocalContainerShmem, with at most 64 process slots.
abbrev pub IsRegion : Region → Type 0
IsRegion r =
    (r.limit < 2 ^ 64)
    × (r.used < 2 ^ 64)
    × (length r.prio_bytes ≡ 32)
    × (r.active_workers < 2 ^ 32)
    × (length r.report_bytes ≡ 1028)
    × (length r.slots ≤ 64)
    × AllSlots r.slots

abbrev pub region_bytes : Region → Bytes
region_bytes r =
    le_bytes 8 r.limit
    ++ (le_bytes 8 r.used
        ++ (r.prio_bytes
            ++ (le_bytes 4 r.active_workers ++ (r.report_bytes ++ all_slot_bytes r.slots))))

-- The uses of device `d` by the slots that are active.
abbrev pub usage : ℕ → List Slot → ℕ
usage d [] = 0
usage d (s ∷ slots) =
    let rest = usage d slots in
    if eqb s.is_active 0
    then rest
    else elim (get_elem? s.hbm_used d) [ none ↦ rest | some v ↦ v + rest ]

add_words-at :
    (d m v : ℕ) (sums vs : List ℕ)
    → get_elem? sums d ≡ some m
    → get_elem? vs d ≡ some v
    → get_elem? (add_words sums vs) d ≡ some ((m + v) % 2 ^ 64)
add_words-at d m v [] vs h k = ground arith
add_words-at d m v (x ∷ sums) [] h k = ground arith
add_words-at zero m v (x ∷ sums) (y ∷ vs) h k = ground arith
add_words-at (suc d) m v (x ∷ sums) (y ∷ vs) h k = add_words-at d m v sums vs h k

at_found : (d : ℕ) (vs : List ℕ) → d < length vs → (v : ℕ) × (get_elem? vs d ≡ some v)
at_found d [] h = absurd (omega arith)
at_found zero (v ∷ vs) h = (v, refl)
at_found (suc d) (v ∷ vs) h = at_found d vs (omega arith)

account_all-usage :
    (d m : ℕ) (slots : List Slot) (sums : List ℕ)
    → AllSlots slots
    → d < 8
    → m < 2 ^ 64
    → get_elem? sums d ≡ some m
    → get_elem? (account_all slots sums) d ≡ some ((m + usage d slots) % 2 ^ 64)
account_all-usage d m [] sums all dev bound h = h ∙ ap some (omega arith)
account_all-usage d m (s ∷ slots) sums (slot, all) dev bound h =
    elim (Bool-cases (eqb s.is_active 0)) [
      | inl free ↦ rw free (account_all-usage d m slots sums all dev bound h)
      | inr busy ↦
          let (v, at) = at_found d s.hbm_used (omega (arith, slot.1)) in
          rw (busy, at)
            (account_all-usage d ((m + v) % 2 ^ 64) slots (add_words sums s.hbm_used) all dev
                (omega arith) (add_words-at d m v sums s.hbm_used h at)
              ∙ ap some (omega arith))
    ]

AllZero : List ℕ → Type 0
AllZero [] = Unit {0}
AllZero (x ∷ xs) = (x ≡ 0) × AllZero xs

zero_at : (d : ℕ) (xs : List ℕ) → AllZero xs → d < length xs → get_elem? xs d ≡ some 0
unfolding AllZero
zero_at d [] h k = absurd (omega arith)
zero_at zero (x ∷ xs) h k = ap some h.0
zero_at (suc d) (x ∷ xs) h k = zero_at d xs h.1 (omega arith)

device-usage :
    (d : ℕ) (slots : List Slot)
    → AllSlots slots
    → d < 8
    → get_elem? (account_all slots no_memory) d ≡ some (usage d slots % 2 ^ 64)
unfolding AllZero
device-usage d slots all dev =
    account_all-usage d 0 slots no_memory all dev (omega arith)
      (zero_at d no_memory (omega arith) dev)
    ∙ ap some (omega arith)

read_pod_stats-region :
    (r : Region)
    → IsRegion r
    → read_pod_stats (region_bytes r)
      ≡ returns (record {
        memory_used = r.used;
        memory_limit = r.limit;
        has_active_workers = not (eqb r.active_workers 0);
      })
unfolding read_pod_stats
read_pod_stats-region r (limit, used, prio, workers, reports, few, all) =
    let behind = r.report_bytes ++ all_slot_bytes r.slots in
    let front = le_bytes 8 r.limit ++ (le_bytes 8 r.used ++ r.prio_bytes) in
    let p : load 8 (region_bytes r) 8 ≡ returns r.used =
      load-le_bytes 8 r.used 8 (le_bytes 8 r.limit)
        (r.prio_bytes ++ (le_bytes 4 r.active_workers ++ behind)) _ (fits8 r.used used) refl refl in
    let q : load 8 (region_bytes r) 0 ≡ returns r.limit =
      load-le_bytes 8 r.limit 0 []
        (le_bytes 8 r.used ++ (r.prio_bytes ++ (le_bytes 4 r.active_workers ++ behind))) _
        (fits8 r.limit limit) refl refl in
    let w : load 4 (region_bytes r) 48 ≡ returns r.active_workers =
      load-le_bytes 4 r.active_workers 48 front behind _ (fits4 r.active_workers workers)
        (omega arith) refl in
    rw (p, read_pod_stats) (rw q (rw w refl))

read_memory_by_device-region :
    (r : Region)
    → IsRegion r
    → read_memory_by_device (region_bytes r) ≡ returns (account_all r.slots no_memory)
unfolding read_memory_by_device
read_memory_by_device-region r (limit, used, prio, workers, reports, few, all) =
    let front =
      le_bytes 8 r.limit
      ++ (le_bytes 8 r.used ++ (r.prio_bytes ++ (le_bytes 4 r.active_workers ++ r.report_bytes))) in
    read_slots-account_all (region_bytes r) front 64 0 no_memory r.slots all few refl
      (omega
        (arith, length-append {0} r.prio_bytes (le_bytes 4 r.active_workers ++ r.report_bytes)))
      (simp append_assoc)

-- Read back from a region that is laid out as the limiter does it, whatever the bytes between are, the
-- statistics are the fields that were written, and a device's memory is the sum, as a uint64, of its uses
-- by the slots that are active.
pub region_bytes-read :
    (r : Region)
    → IsRegion r
    → (read_pod_stats (region_bytes r)
        ≡ returns (record {
          memory_used = r.used;
          memory_limit = r.limit;
          has_active_workers = not (eqb r.active_workers 0);
        }))
      × ((sums : List ℕ) × (read_memory_by_device (region_bytes r) ≡ returns sums)
          × ((d : ℕ) → d < 8 → get_elem? sums d ≡ some (usage d r.slots % 2 ^ 64)))
region_bytes-read r h = (
  read_pod_stats-region r h,
  (
    account_all r.slots no_memory,
    read_memory_by_device-region r h,
    λ d dev. device-usage d r.slots h.6 dev,
  ),
)
