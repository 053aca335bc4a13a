-- ===== src/Manager/Cleanup.antt =====
-- internal/manager/manager.go, CleanupIdleVNPUs: the loop over the devices and their vNPUs. The driver's
-- state is threaded through, since each DestroyVirtualDevice changes it.
pub mod Safety
pub mod Targets
pub mod Listed
pub mod Left
use Prim.Native.String.{String}
use ascend_device_plugin.Base.{
  ℕ, ℤ, Bool, true, false, ◌&&◌, List, [], ◌∷◌, Result, ok, err, wrap, eqb, suc, if◌then◌else◌,
}
use ascend_device_plugin.Config.{has_uuid}
use ascend_device_plugin.Manager.Driver.{DeviceInterface, VDevInfo}
use ascend_device_plugin.Manager.State.{
  AscendManager, should_ignore_device, should_check_ignored, filter_devices,
}

-- How often DestroyVirtualDevice succeeded, and the state that it left.
abbrev pub counted : Result (Unit {0}) → ℕ → ℕ
counted (ok t) n = suc n
counted (err e) n = n

module _ {W : Type 0} (d : DeviceInterface W) (am : AscendManager) where
  -- The loop over the vNPUs of one device; a failed destroy is logged and the loop goes on.
  unfoldable pub destroy_idle : ℤ → List VDevInfo → ℕ → W → ℕ × W
  destroy_idle logic_id [] total_cleaned w = (total_cleaned, w)
  destroy_idle logic_id (v_dev ∷ rest) total_cleaned w = elim (eqb v_dev.is_container_used 0) [
    | true ↦
        let (r, w') = d.destroy_virtual_device w logic_id v_dev.v_dev_id in
        destroy_idle logic_id rest (counted r total_cleaned) w'
    | false ↦ destroy_idle logic_id rest total_cleaned w
  ]

  unfoldable pub cleanup_uuid : W → ℤ → Result String
  cleanup_uuid w logic_id =
      if should_check_ignored am && has_uuid (filter_devices am)
      then d.get_die_id w logic_id
      else ok ""

  -- The vNPUs that the loop's body goes through: none where it goes on to the next device.
  unfoldable pub v_devs_of : W → ℤ → List VDevInfo
  v_devs_of w logic_id = elim (d.get_card_id_device_id w logic_id) [
    | err e ↦ []
    | ok (card_id, device_id) ↦ elim (cleanup_uuid w logic_id) [
      | err e ↦ []
      | ok uuid ↦
          if should_ignore_device am uuid card_id
          then []
          else elim (d.get_virtual_device_info w logic_id) [ err e ↦ [] | ok infos ↦ infos ]
    ]
  ]

  unfoldable pub cleanup_devices : List ℤ → ℕ → W → ℕ × W
  cleanup_devices [] total_cleaned w = (total_cleaned, w)
  cleanup_devices (logic_id ∷ ids) total_cleaned w =
      let (n, w') = destroy_idle logic_id (v_devs_of w logic_id) total_cleaned w in
      cleanup_devices ids n w'

  -- The count is only logged.
  unfoldable pub cleanup_idle_vnpus : W → Result (Unit {0}) × W
  cleanup_idle_vnpus w = elim (d.get_device_list w) [
    | err e ↦ (err (wrap "failed to get device list" e), w)
    | ok ids ↦ (ok tt, (cleanup_devices ids 0 w).1)
  ]
