-- ===== src/Manager/Select/Bands.antt =====
-- internal/manager/manager.go, configMatchesMemory: the band of an entry.
use ascend_device_plugin.Base.{ℕ, ◌≤◌, ◌<◌, true, false, ◌≡◌, ◌≢◌, ◌↔◌, ◌⊎◌, arith, pos_part}
use ascend_device_plugin.Config.{VnpuConfig}
use ascend_device_plugin.Manager.Select.{has_memory_band, config_matches_memory}

-- Neither bound is positive.
abbrev pub IsUnconstrained : VnpuConfig → Type 0
IsUnconstrained c = (pos_part c.memory_match_min ≡ 0) × (pos_part c.memory_match_max ≡ 0)

-- The reading is there and lies in [min, max), where a bound that is not positive does not count.
abbrev pub InBand : VnpuConfig → ℕ → Type 0
InBand c m =
    (m ≢ 0)
    × (pos_part c.memory_match_min ≤ m)
    × ((pos_part c.memory_match_max ≡ 0) ⊎ (m < pos_part c.memory_match_max))

-- An entry matches a reading exactly when it has no band or the reading lies in its band.
pub config_matches_memory_iff :
    (c : VnpuConfig) (m : ℕ) → (config_matches_memory c m ≡ true) ↔ (IsUnconstrained c ⊎ InBand c m)
unfolding config_matches_memory
config_matches_memory_iff c m = ground arith

pub has_memory_band_iff : (c : VnpuConfig) → (has_memory_band c ≡ false) ↔ IsUnconstrained c
unfolding has_memory_band
has_memory_band_iff c = ground arith

abbrev pub IsConstrained : VnpuConfig → Type 0
IsConstrained c = (0 < pos_part c.memory_match_min) ⊎ (0 < pos_part c.memory_match_max)

pub banded_iff :
    (c : VnpuConfig) (m : ℕ)
    → ((has_memory_band c ≡ true) × (config_matches_memory c m ≡ true))
      ↔ (IsConstrained c × InBand c m)
unfolding config_matches_memory
banded_iff c m = ground arith
