-- ===== src/Manager/Driver.antt =====
-- devmanager.DeviceInterface, which internal/manager/manager.go calls: the driver of the cards. `W` is
-- the state of the hardware; only DestroyVirtualDevice changes it. An operation of the manager reads one
-- such state, so its queries are taken to see the hardware at one time.
use ascend_device_plugin.Base.{ℕ, ℤ, String, List, Option, Result}

pub record ChipInfo : Type 0 where
  pub chip_type : String
  pub name : String

-- A vNPU of a device: its VDevID and its QueryInfo.IsContainerUsed.
pub record VDevInfo : Type 0 where
  pub v_dev_id : ℕ
  pub is_container_used : ℕ

pub record DeviceInterface (W : Type 0) : Type 0 where
  pub get_valid_chip_info : W → Result ChipInfo
  -- common.GetDeviceTypeByChipName, a table of the same package
  pub device_type_by_chip_name : String → String
  pub get_device_list : W → Result (List ℤ)
  -- MemorySize, or `none` for a nil pointer
  pub get_device_memory_info : W → ℤ → Result (Option ℕ)
  pub get_physic_id_from_logic_id : W → ℤ → Result ℤ
  pub get_card_id_device_id : W → ℤ → Result (ℤ × ℤ)
  -- GetDieID(id, dcmi.VDIE)
  pub get_die_id : W → ℤ → Result String
  pub get_device_health : W → ℤ → Result ℕ
  pub get_virtual_device_info : W → ℤ → Result (List VDevInfo)
  pub destroy_virtual_device : W → ℤ → ℕ → Result (Unit {0}) × W
