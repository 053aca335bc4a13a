-- ===== src/Server/Publish.antt =====
-- internal/server/server.go, apiDevices, and register.go, deviceFingerprint: what kubelet is told of the
-- devices, and the text that stands for it.
pub mod Fingerprint
pub mod Slices
pub mod Ids
use Prim.Native.String.{◌++◌}
use mathlib.Core.List
use ascend_device_plugin.Base.{
  ℕ, zero, suc, ℤ, pos, pos_part, String, Bool, List, [], ◌∷◌, Outcome, and_then, returns,
  if◌then◌else◌,
}
use ascend_device_plugin.Base.Text.{itoa}
use ascend_device_plugin.Manager.State.{Device}
use ascend_device_plugin.Server.Plugin.{Manager}

-- A v1beta1.Device.
pub record ApiDevice : Type 0 where
  pub id : String
  pub health : String

abbrev pub health_text : Bool → String
health_text health = if health then "Healthy" else "Unhealthy"

-- `for i := range vCount`, from `i` on.
unfoldable pub slices : Device → ℕ → ℕ → List ApiDevice
slices dev i zero = []
slices dev i (suc n) =
    record { id = dev.uuid ++ "-" ++ itoa (pos i); health = health_text dev.health }
    ∷ slices dev (suc i) n

unfoldable pub all_slices : ℕ → List Device → List ApiDevice
unfolding slices
all_slices n [] = []
all_slices n (dev ∷ devs) = List.◌++◌ (slices dev 0 n) (all_slices n devs)

-- A negative count gives no device.
unfoldable pub api_devices : Manager → Outcome (List ApiDevice)
api_devices mgr =
    and_then mgr.v_device_count λ v_count. returns (all_slices (pos_part v_count) mgr.devices)

abbrev health_mark : Bool → String
health_mark health = if health then "=1;" else "=0;"

unfoldable pub fingerprint : List Device → String
fingerprint [] = ""
fingerprint (dev ∷ devs) = dev.uuid ++ health_mark dev.health ++ fingerprint devs

unfoldable pub device_fingerprint : Manager → String
device_fingerprint mgr = fingerprint mgr.devices
