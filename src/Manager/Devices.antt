-- ===== src/Manager/Devices.antt =====
-- internal/manager/manager.go, UpdateDevice to GetUnHealthIDs: the cached devices, and what is read from
-- the driver without the cache.
pub mod Ignored
pub mod Refresh
pub mod Agreement
use ascend_device_plugin.Base.{
  ℕ, ℤ, String, Bool, true, false, not, List, [], ◌∷◌, Option, none, some, Result, ok, err, eqb,
  ◌==◌, ◌>>=◌, if◌then◌else◌,
}
use ascend_device_plugin.Config.{has_uuid}
use ascend_device_plugin.Manager.Driver.{DeviceInterface}
use ascend_device_plugin.Manager.State.{
  Device, AscendManager, should_ignore_device, should_check_ignored, filter_devices,
}

unfoldable pub get_devices : AscendManager → List Device
get_devices am = am.devs

unfoldable pub find_device : String → List Device → Option Device
find_device uuid [] = none
find_device uuid (dev ∷ devs) = if dev.uuid == uuid then some dev else find_device uuid devs

unfoldable pub get_device_by_uuid : AscendManager → String → Option Device
unfolding find_device
get_device_by_uuid am uuid = find_device uuid am.devs

-- `newDevs = append(newDevs, …)` for a device that is not ignored.
abbrev pub add_device : Option Device → List Device → List Device
add_device none devs = devs
add_device (some dev) devs = dev ∷ devs

module _ {W : Type 0} (d : DeviceInterface W) (w : W) (am : AscendManager) where
  -- The body of UpdateDevice's loop: `none` is an ignored device.
  unfoldable pub read_device : ℤ → Result (Option Device)
  read_device id = do
    phy_id ← d.get_physic_id_from_logic_id w id
    (card_id, device_id) ← d.get_card_id_device_id w id
    uuid ← d.get_die_id w id
    if should_ignore_device am uuid card_id then ok none else do
      health ← d.get_device_health w id
      ok (
          some (record {
            uuid = uuid;
            logic_id = id;
            phy_id = phy_id;
            card_id = card_id;
            device_id = device_id;
            memory = am.config.memory_allocatable;
            ai_core = am.config.ai_core;
            health = eqb health 0;
          }))

  unfoldable pub read_devices : List ℤ → Result (List Device)
  read_devices [] = ok []
  read_devices (id ∷ ids) = do
    found ← read_device id
    rest ← read_devices ids
    ok (add_device found rest)

  -- The cache is replaced as a whole, and only if every query succeeded.
  unfoldable pub update_device : Result (Unit {0}) × AscendManager
  unfolding read_devices
  update_device = elim (do ids ← d.get_device_list w; read_devices ids) [
    | err e ↦ (err e, am)
    | ok devs ↦ (ok tt, record am { devs = devs })
  ]

  -- "" where no uuid is listed; otherwise the die's.
  unfoldable pub filter_uuid : ℤ → Result String
  filter_uuid id = if has_uuid (filter_devices am) then d.get_die_id w id else ok ""

  -- Whether a device passes the filters; a device that cannot be read does not.
  unfoldable pub is_available : ℤ → Bool
  unfolding filter_uuid
  is_available id = elim (d.get_card_id_device_id w id) [
    | err e ↦ false
    | ok (card_id, device_id) ↦ elim (filter_uuid id) [
      | err e ↦ false
      | ok uuid ↦ not (should_ignore_device am uuid card_id)
    ]
  ]

  unfoldable pub available_ids : List ℤ → List ℤ
  available_ids [] = []
  available_ids (id ∷ ids) =
      let rest = available_ids ids in if is_available id then id ∷ rest else rest

  unfoldable pub get_ids : List ℤ
  unfolding available_ids
  get_ids = elim (d.get_device_list w) [
    | err e ↦ []
    | ok ids ↦ if not (should_check_ignored am) then ids else available_ids ids
  ]

  -- The body of GetUnHealthIDs' loop: whether the device is reported.
  unfoldable pub is_unhealthy : ℤ → Bool
  is_unhealthy id =
      let sick : Bool = elim (d.get_device_health w id) [
        | err e ↦ false
        | ok code ↦ not (eqb code 0)
      ] in
      if should_check_ignored am then (if is_available id then sick else false) else sick

  unfoldable pub unhealthy_ids : List ℤ → List ℤ
  unhealthy_ids [] = []
  unhealthy_ids (id ∷ ids) =
      let rest = unhealthy_ids ids in if is_unhealthy id then id ∷ rest else rest

  unfoldable pub get_un_health_ids : List ℤ
  unfolding unhealthy_ids
  get_un_health_ids = elim (d.get_device_list w) [ err e ↦ [] | ok ids ↦ unhealthy_ids ids ]
