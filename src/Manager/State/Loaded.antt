-- ===== src/Manager/State/Loaded.antt =====
-- internal/manager/manager.go, LoadConfig: the manager that it leaves, and that it does not panic.
use Prim.Native.String
use ascend_device_plugin.Base.{
  ℕ, pos, String, Bool, ◌==◌, eq_iff, ◌≡◌, ◌⊎◌, refl, inl, inr, List, set, get_elem?, Option, none,
  some, Outcome, returns, Result, ok, err, Error, message, wrap, Bool-cases, Result-cases,
}
use ascend_device_plugin.Config
use ascend_device_plugin.Config.{Template, VnpuConfig, NodeConfig, Files}
use ascend_device_plugin.Manager.Driver.{DeviceInterface, ChipInfo}
use ascend_device_plugin.Manager.State.{
  adopt, find_node, load_node_config, AscendManager, no_entry, probe_device_memory_mb, by_memory,
  adopt_config, take_config, select_config, load_config,
}
use ascend_device_plugin.Manager.Select.{index_vnpu_config}
use ascend_device_plugin.Manager.Select.Choice.{Suits, index_vnpu_config_lem}

module _ (sort_slice : (Template → Template → Bool) → List Template → List Template) {W : Type 0}
    (d : DeviceInterface W) (w : W) where
  abbrev pub sorted : VnpuConfig → VnpuConfig
  sorted c = record c { templates = sort_slice by_memory c.templates }

  -- The chosen entry with its templates sorted is the manager's, also in its copy of the file.
  abbrev pub Adopts : Config.Config → ChipInfo → AscendManager → AscendManager → Type 0
  Adopts config chip am am' =
      let configs = config.vnpus.configs in
      let dev_type = d.device_type_by_chip_name chip.name in
      (chip.chip_type ≡ "Ascend")
      × ((i : ℕ) × (c : VnpuConfig) × (index_vnpu_config configs chip.name dev_type
              (probe_device_memory_mb d w)
            ≡ returns (pos i))
          × (get_elem? configs i ≡ some c)
          × Suits configs chip.name dev_type c
          × (am' ≡ record am {
            config = sorted c;
            global_config = record {
              vnpus = record config.vnpus { configs = set configs i (sorted c) };
            };
          }))

  abbrev pub Loads :
      Files → String → AscendManager → Outcome (Result (Unit {0}) × AscendManager) → Type 0
  Loads f path am r =
      ((e : Error) × (r ≡ returns (err e, am)))
      ⊎ ((config : Config.Config) × (chip : ChipInfo) × (am' : AscendManager) × (Config.load_config
              f path
            ≡ ok config)
          × (d.get_valid_chip_info w ≡ ok chip)
          × (r ≡ returns (ok tt, am'))
          × Adopts config chip am am')

  selected :
      (config : Config.Config) (chip : ChipInfo) (am : AscendManager)
      → (let r = select_config sort_slice d w config chip am in
          ((e : Error) × (r ≡ returns (err e, am)))
          ⊎ ((am' : AscendManager) × (r ≡ returns (ok tt, am')) × Adopts config chip am am'))
  unfolding select_config take_config adopt_config
  selected config chip am = elim (Bool-cases (chip.chip_type == "Ascend")) [
    | inr other ↦ inl (message "chip type is not Ascend", rw (other, select_config) refl)
    | inl ascend ↦
        elim (index_vnpu_config_lem config.vnpus.configs chip.name
          (d.device_type_by_chip_name chip.name) (probe_device_memory_mb d w)) [
            | inl (e, no_name, no_type) ↦ inl (
              no_entry chip.name (d.device_type_by_chip_name chip.name)
                  (probe_device_memory_mb d w),
              rw (ascend, select_config) (rw e refl),
            )
            | inr (i, e, (c, at, suits)) ↦ inr (
              adopt_config sort_slice config i c am,
              rw (ascend, select_config) (rw e (rw (at, take_config) refl)),
              ((eq_iff chip.chip_type "Ascend").0 ascend, (i, c, e, at, suits, refl)),
            )
          ]
  ]

  -- LoadConfig does not panic. It fails and leaves the manager as it was, or the file and the chip could
  -- be read, the chip is an Ascend, and the manager has the entry that fits the chip, with its templates
  -- sorted, and the file's configuration with that entry in its place; nothing else of it changed.
  pub load_config-Loads :
      (f : Files) (path : String) (am : AscendManager)
      → Loads f path am (load_config sort_slice d w f path am)
  unfolding load_config
  load_config-Loads f path am = elim (Result-cases (Config.load_config f path)) [
    | inr (e, p) ↦
        inl (wrap (String.◌++◌ "failed to load config from " path) e, rw (p, load_config) refl)
    | inl (config, p) ↦ elim (Result-cases (d.get_valid_chip_info w)) [
      | inr (e, q) ↦ inl (wrap "failed to get valid chip info" e, rw (p, load_config) (rw q refl))
      | inl (chip, q) ↦ elim (selected config chip am) [
        | inl (e, r) ↦ inl (e, rw (p, load_config) (rw q r))
        | inr (am', r, adopts) ↦ inr (config, chip, am', p, q, rw (p, load_config) (rw q r), adopts)
      ]
    ]
  ]

adopt-config : (am : AscendManager) (n : Option NodeConfig) → (adopt am n).config ≡ am.config
unfolding adopt
adopt-config am none = refl
adopt-config am (some n) = refl

pub load_node_config-config :
    (f : Files) (path node_name : String) (am : AscendManager)
    → (load_node_config f path node_name am).1.config ≡ am.config
unfolding load_node_config
load_node_config-config f path node_name am = elim (Result-cases (Config.load_node_config f path)) [
  | inr (e, p) ↦ rw (load_node_config, p) refl
  | inl (list, p) ↦ rw (load_node_config, p) (adopt-config am (find_node node_name list.nodes))
]
