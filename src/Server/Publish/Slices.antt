-- ===== src/Server/Publish/Slices.antt =====
-- internal/server/server.go, apiDevices: the list that kubelet gets.
use Prim.Native.String.{◌++◌}
use native.Mathlib.Nat.{zero-mul, suc-mul}
use ascend_device_plugin.Base.{
  ℕ, zero, suc, ◌+◌, ◌*◌, ◌<◌, pos, ◌≡◌, ◌↔◌, refl, inl, inr, List, [], ◌∷◌, Memᴰ, returns, length,
  length-append, mem_split, mem_left, mem_right, arith, ap, sym, subst, ◌∙◌,
}
use ascend_device_plugin.Base.Text.{itoa}
use ascend_device_plugin.Manager.State.{Device}
use ascend_device_plugin.Server.Plugin.{Manager}
use ascend_device_plugin.Server.Publish.{ApiDevice, health_text, slices, all_slices, api_devices}

abbrev pub slice : Device → ℕ → ApiDevice
slice dev i = record { id = dev.uuid ++ "-" ++ itoa (pos i); health = health_text dev.health }

-- The published device is the `i`-th part, with i < n, of some device.
abbrev pub IsSliceOf : ℕ → List Device → ApiDevice → Type 0
IsSliceOf n devs x = (dev : Device) × (i : ℕ) × Memᴰ dev devs × (i < n) × (x ≡ slice dev i)

pub slices-mem :
    (dev : Device) (from n : ℕ) (x : ApiDevice)
    → Memᴰ x (slices dev from n)
    → (i : ℕ) × (i < n) × (x ≡ slice dev (from + i))
unfolding slices
slices-mem dev from zero x m = elim m [ ]
slices-mem dev from (suc n) x (Memᴰ.head e) = (0, omega arith, e ∙ ap (slice dev) (omega arith))
slices-mem dev from (suc n) x (Memᴰ.tail m) =
    let (i, less, e) = slices-mem dev (suc from) n x m in
    (suc i, omega arith, e ∙ ap (slice dev) (omega arith))

mem-slices : (dev : Device) (from n i : ℕ) → i < n → Memᴰ (slice dev (from + i)) (slices dev from n)
unfolding slices
mem-slices dev from zero i h = absurd (omega arith)
mem-slices dev from (suc n) zero h = Memᴰ.head (ap (slice dev) (omega arith))
mem-slices dev from (suc n) (suc i) h = Memᴰ.tail (
    subst (λ j. Memᴰ (slice dev j) (slices dev (suc from) n)) (omega arith)
      (mem-slices dev (suc from) n i (omega arith)))

slices-length : (dev : Device) (from n : ℕ) → length (slices dev from n) ≡ n
unfolding slices
slices-length dev from zero = refl
slices-length dev from (suc n) = ap suc (slices-length dev (suc from) n)

all_slices-length : (n : ℕ) (devs : List Device) → length (all_slices n devs) ≡ length devs * n
unfolding all_slices
all_slices-length n [] = sym (zero-mul n)
all_slices-length n (dev ∷ devs) =
    length-append (slices dev 0 n) (all_slices n devs)
    ∙ rw (slices-length dev 0 n, all_slices-length n devs)
        (sym (suc-mul (length devs) n ∙ omega arith))

pub all_slices-mem :
    (n : ℕ) (devs : List Device) (x : ApiDevice) → Memᴰ x (all_slices n devs) → IsSliceOf n devs x
unfolding all_slices
all_slices-mem n [] x m = elim m [ ]
all_slices-mem n (dev ∷ devs) x m = elim (mem_split (slices dev 0 n) (all_slices n devs) m) [
  | inl here ↦
      let (i, less, e) = slices-mem dev 0 n x here in
      (dev, i, Memᴰ.head refl, less, e ∙ ap (slice dev) (omega arith))
  | inr later ↦
      let (dev', i, mem, less, e) = all_slices-mem n devs x later in
      (dev', i, Memᴰ.tail mem, less, e)
]

mem-all_slices :
    (n : ℕ) (devs : List Device) (dev : Device) (i : ℕ)
    → Memᴰ dev devs
    → i < n
    → Memᴰ (slice dev i) (all_slices n devs)
unfolding all_slices
mem-all_slices n [] dev i m less = elim m [ ]
mem-all_slices n (dev' ∷ devs) dev i (Memᴰ.head e) less =
    mem_left (slices dev' 0 n) (all_slices n devs) (
      subst (λ j. Memᴰ (slice dev i) (slices j 0 n)) e
        (subst (λ j. Memᴰ (slice dev j) (slices dev 0 n)) (omega arith)
          (mem-slices dev 0 n i less)))
mem-all_slices n (dev' ∷ devs) dev i (Memᴰ.tail m) less =
    mem_right (slices dev' 0 n) (all_slices n devs) (mem-all_slices n devs dev i m less)

-- kubelet is told of as many devices as the manager has times its count, which are exactly the parts
-- "uuid-i" with i below the count, each with the health of its device.
pub api_devices-IsSliceOf :
    (mgr : Manager) (n : ℕ)
    → mgr.v_device_count ≡ returns (pos n)
    → (xs : List ApiDevice) × (api_devices mgr ≡ returns xs)
      × (length xs ≡ length mgr.devices * n)
      × ((x : ApiDevice) → Memᴰ x xs ↔ IsSliceOf n mgr.devices x)
unfolding api_devices
api_devices-IsSliceOf mgr n h = (
  all_slices n mgr.devices,
  rw h refl,
  all_slices-length n mgr.devices,
  λ x. (
    all_slices-mem n mgr.devices x,
    λ (dev, i, mem, less, e).
        subst (λ y. Memᴰ y (all_slices n mgr.devices)) (sym e)
          (mem-all_slices n mgr.devices dev i mem less),
  ),
)
