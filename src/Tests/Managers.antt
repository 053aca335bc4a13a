-- ===== src/Tests/Managers.antt =====
-- The configuration and the manager on the node of `Fixtures`.
use ascend_device_plugin.Base.{
  ℕ, ◌≡◌, ◌↔◌, ◌⊎◌, refl, ℤ, pos, List, [], ◌∷◌, ◌++◌, some, ok, err, Error, Memᴰ, external,
  returns, panics, arith, sym, ap, subst,
}
use ascend_device_plugin.Config.{NodeConfig, Files, Bytes, load_config, is_empty}
use ascend_device_plugin.Config.Loading.{Decodes, load_config_iff}
use ascend_device_plugin.Manager.Counts.{HasNoCount, IsEmptyFirst, v_device_count-panics_iff}
use ascend_device_plugin.Manager.Driver.{VDevInfo}
use ascend_device_plugin.Manager.State
use ascend_device_plugin.Manager.State.Loaded.{Loads, load_config-Loads}
use ascend_device_plugin.Manager.State.{
  Device, v_device_count, should_ignore_device, should_check_ignored, lists_uuid, lists_index,
}
use ascend_device_plugin.Manager.Select.{
  index_vnpu_config, config_matches_memory, pick_from_candidates, indices_from, is_exact,
  scan_candidates,
}
use ascend_device_plugin.Manager.Select.Candidates.{Entry}
use ascend_device_plugin.Manager.Select.Choice.{HasName, Answer, index_vnpu_config_lem}
use ascend_device_plugin.Manager.Select.Memory.{Chosen, index_vnpu_config-Chosen}
use ascend_device_plugin.Manager.Devices.{
  update_device, read_device, get_devices, get_device_by_uuid, get_ids, get_un_health_ids,
  find_device,
}
use ascend_device_plugin.Manager.Devices.Ignored.{Names}
use ascend_device_plugin.Manager.Devices.Refresh.{IsReading, AreRead, update_device_lem}
use ascend_device_plugin.Manager.Devices.Agreement.{
  logic_ids, unhealthy, update_device-get_ids, update_device-get_device_by_uuid,
}
use ascend_device_plugin.Manager.Cleanup.{cleanup_idle_vnpus}
use ascend_device_plugin.Manager.Cleanup.Safety.{IsIdleTarget, cleanup_idle_vnpus-keeps}
use ascend_device_plugin.Tests.Fixtures.{
  configs, plugin_config, entry, sample_manager, sample_driver, first_card, Hardware, v_dev,
  v_devs_on,
}

abbrev pub sample_files : Files
sample_files = record {
  read_file = λ path. ok (1 ∷ []);
  unmarshal_config = λ bytes. ok plugin_config;
  unmarshal_legacy = λ bytes. err (external "not the old layout");
  unmarshal_node_list = λ bytes. ok (record { nodes = [] });
}

load_config_iff_example : (load_config sample_files "config.yaml" ≡ ok plugin_config) ↔ (
    (bytes : Bytes) × (sample_files.read_file "config.yaml" ≡ ok bytes)
    × Decodes sample_files bytes plugin_config)
load_config_iff_example = load_config_iff sample_files "config.yaml" plugin_config

index_of_48g : index_vnpu_config configs "310P3" "Ascend310P" 49152 ≡ returns (pos 2)
unfolding index_vnpu_config pick_from_candidates indices_from is_exact scan_candidates
    config_matches_memory
index_of_48g = refl

index_vnpu_config_lem_example :
    Answer configs "310P3" "Ascend310P" 49152 (index_vnpu_config configs "310P3" "Ascend310P" 49152)
index_vnpu_config_lem_example = index_vnpu_config_lem configs "310P3" "Ascend310P" 49152

index_vnpu_config-Chosen_example :
    (x : ℕ) × (index_vnpu_config configs "310P3" "Ascend310P" 49152 ≡ returns (pos x))
    × Entry configs x (HasName "310P3")
    × Chosen configs "310P3" "Ascend310P" 49152 x
index_vnpu_config-Chosen_example =
    index_vnpu_config-Chosen configs "310P3" "Ascend310P" 49152 1 2
      (entry "Ascend310P" "310P3" "Ascend310P" 0 32768)
      (entry "Ascend310P-48G" "310P3" "Ascend310P" 32768 0) (λ e. omega arith) refl refl refl refl

refreshed :
    update_device sample_driver [] sample_manager
    ≡ (ok tt, record sample_manager { devs = first_card ∷ [] })
unfolding update_device read_device should_ignore_device should_check_ignored lists_uuid lists_index
    is_empty
refreshed = refl

update_device_lem_example :
    ((e : Error) × (update_device sample_driver [] sample_manager ≡ (err e, sample_manager)))
    ⊎ ((ids : List ℤ) × (devs : List Device) × (sample_driver.get_device_list [] ≡ ok ids)
        × (update_device sample_driver [] sample_manager
            ≡ (ok tt, record sample_manager { devs = devs }))
        × AreRead sample_driver [] sample_manager ids devs)
update_device_lem_example = update_device_lem sample_driver [] sample_manager

refreshed_ok : (update_device sample_driver [] sample_manager).0 ≡ ok tt
refreshed_ok = rw refreshed

first_found :
    get_device_by_uuid (update_device sample_driver [] sample_manager).1 "die-0" ≡ some first_card
unfolding get_device_by_uuid find_device
first_found = rw refreshed

update_device-get_ids_example :
    (get_ids sample_driver [] sample_manager
      ≡ logic_ids sample_driver [] sample_manager
          (get_devices (update_device sample_driver [] sample_manager).1))
    × (get_un_health_ids sample_driver [] sample_manager
        ≡ logic_ids sample_driver [] sample_manager (
            unhealthy sample_driver [] sample_manager
              (get_devices (update_device sample_driver [] sample_manager).1)))
update_device-get_ids_example = update_device-get_ids sample_driver [] sample_manager refreshed_ok

update_device-get_device_by_uuid_example :
    (first_card.uuid ≡ "die-0")
    × IsReading sample_driver [] sample_manager first_card
    × ((n : NodeConfig)
        → sample_manager.node_config ≡ some n
        → ¬ Names n.filter_devices "die-0" (pos 0))
update_device-get_device_by_uuid_example =
    update_device-get_device_by_uuid sample_driver [] sample_manager "die-0" first_card refreshed_ok
      first_found

first_card_used :
    (v : VDevInfo)
    → v.is_container_used ≡ 0
    → v.v_dev_id ≡ 101
    → ¬ Memᴰ v (v_dev 100 0 ∷ v_dev 101 1 ∷ v_dev 102 0 ∷ [])
first_card_used v idle e (Memᴰ.head q) = ground arith
first_card_used v idle e (Memᴰ.tail (Memᴰ.head q)) = ground arith
first_card_used v idle e (Memᴰ.tail (Memᴰ.tail (Memᴰ.head q))) = ground arith
first_card_used v idle e (Memᴰ.tail (Memᴰ.tail (Memᴰ.tail m))) = elim m [ ]

not_listed :
    {infos : List VDevInfo} (id : ℤ) (v : VDevInfo)
    → v_devs_on id ≡ ok infos
    → v.is_container_used ≡ 0
    → Memᴰ v infos
    → ¬ ◌≡◌ {A = ℤ × ℕ} (pos 0, 101) (id, v.v_dev_id)
not_listed {infos} id v listed idle mem e =
    first_card_used v idle (sym (ap (λ p. p.1) e))
      (subst (Memᴰ v) (sym (first_listed (ap (λ p. p.0) e))) mem)
  where
    first_listed : pos 0 ≡ id → v_dev 100 0 ∷ v_dev 101 1 ∷ v_dev 102 0 ∷ [] ≡ infos
    first_listed h = let found = rw (← h) at listed in ground arith

not_added :
    {infos : List VDevInfo} (id : ℤ) (v : VDevInfo)
    → v_devs_on id ≡ ok infos
    → v.is_container_used ≡ 0
    → Memᴰ v infos
    → (w : Hardware) → ¬ Memᴰ (pos 0, 101) w
    → ¬ Memᴰ (pos 0, 101) (w ++ (id, v.v_dev_id) ∷ [])
not_added id v listed idle mem [] h (Memᴰ.head e) = not_listed id v listed idle mem e
not_added id v listed idle mem [] h (Memᴰ.tail m) = elim m [ ]
not_added id v listed idle mem (x ∷ w) h (Memᴰ.head e) = h (Memᴰ.head e)
not_added id v listed idle mem (x ∷ w) h (Memᴰ.tail m) =
    not_added id v listed idle mem w (λ k. h (Memᴰ.tail k)) m

-- The used vNPU 101 of the first card is never destroyed.
pub used_stays :
    (w seen : Hardware) (id : ℤ) (v : VDevInfo)
    → IsIdleTarget sample_driver sample_manager seen id v
    → ¬ Memᴰ (pos 0, 101) w
    → ¬ Memᴰ (pos 0, 101) (sample_driver.destroy_virtual_device w id v.v_dev_id).1
used_stays w seen id v (idle, (infos, listed, mem), _) h m = not_added id v listed idle mem w h m

cleanup_idle_vnpus-keeps_example :
    ¬ Memᴰ (pos 0, 101) (cleanup_idle_vnpus sample_driver sample_manager []).1
cleanup_idle_vnpus-keeps_example =
    cleanup_idle_vnpus-keeps sample_driver sample_manager (λ w. ¬ Memᴰ (pos 0, 101) w) used_stays []
      (λ m. elim m [ ])

v_device_count-panics_iff_example :
    (v_device_count sample_manager ≡ panics)
    ↔ (HasNoCount sample_manager.node_config × IsEmptyFirst sample_manager.config.templates)
v_device_count-panics_iff_example = v_device_count-panics_iff sample_manager

load_config-Loads_example :
    Loads
      (λ less ts. ts)
      sample_driver
      []
      sample_files
      "config.yaml"
      sample_manager
      (State.load_config (λ less ts. ts) sample_driver [] sample_files "config.yaml" sample_manager)
load_config-Loads_example =
    load_config-Loads (λ less ts. ts) sample_driver [] sample_files "config.yaml" sample_manager
