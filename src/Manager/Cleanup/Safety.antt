-- ===== src/Manager/Cleanup/Safety.antt =====
-- internal/manager/manager.go, CleanupIdleVNPUs: which vNPUs can be destroyed.
use ascend_device_plugin.Base.{
  ℕ, ℤ, String, false, ◌&&◌, ◌≡◌, refl, subst, ◌⊎◌, inl, inr, List, [], ◌∷◌, some, Memᴰ, ok,
  Result-cases, Bool-cases, Option-cases, arith, eqb, ltb, length,
}
use ascend_device_plugin.Config.{NodeConfig, has_uuid, is_empty}
use ascend_device_plugin.Manager.Driver.{DeviceInterface, VDevInfo}
use ascend_device_plugin.Manager.State.{
  AscendManager, should_ignore_device, should_check_ignored, filter_devices,
}
use ascend_device_plugin.Manager.Devices.Ignored.{Names, should_ignore_device_iff}
use ascend_device_plugin.Manager.Devices.Agreement.{no_uuid_listed}
use ascend_device_plugin.Manager.Cleanup.{
  counted, destroy_idle, cleanup_uuid, v_devs_of, cleanup_devices, cleanup_idle_vnpus,
}

module _ {W : Type 0} (d : DeviceInterface W) (am : AscendManager) where
  -- The node's filter, if there is one, does not name the device: neither by its card nor, where it
  -- lists a uuid at all, by its die id, which then can be read.
  abbrev pub IsUnnamed : W → ℤ → ℤ → Type 0
  IsUnnamed w id card_id =
      (n : NodeConfig)
      → am.node_config ≡ some n
      → (uuid : String) × ((n.filter_devices.uuid ≡ []) ⊎ (d.get_die_id w id ≡ ok uuid))
        × ¬ Names n.filter_devices uuid card_id

  -- In some state of the hardware the driver lists the vNPU on the device and says that no container
  -- uses it, and the filter does not name the device.
  abbrev pub IsIdleTarget : W → ℤ → VDevInfo → Type 0
  IsIdleTarget w id v =
      (v.is_container_used ≡ 0)
      × ((infos : List VDevInfo) × (d.get_virtual_device_info w id ≡ ok infos) × Memᴰ v infos)
      × ((card_id device_id : ℤ) × (d.get_card_id_device_id w id ≡ ok (card_id, device_id))
          × IsUnnamed w id card_id)

  no_uuid : (l : List String) → ltb 0 (length l) ≡ false → l ≡ []
  no_uuid [] h = refl
  no_uuid (x ∷ l) h = ground arith

  -- The die id is read wherever the filter lists a uuid.
  uuid_read :
      (w : W) (id : ℤ) (read : String) (n : NodeConfig)
      → am.node_config ≡ some n
      → cleanup_uuid d am w id ≡ ok read
      → (n.filter_devices.uuid ≡ []) ⊎ (d.get_die_id w id ≡ ok read)
  unfolding cleanup_uuid has_uuid should_check_ignored is_empty
  uuid_read w id read n cfg p = elim (Bool-cases (ltb 0 (length n.filter_devices.uuid))) [
    | inl listed ↦ inr (ground arith)
    | inr unlisted ↦ inl (no_uuid n.filter_devices.uuid unlisted)
  ]

  unnamed :
      (w : W) (id : ℤ) (card_id : ℤ) (read : String)
      → cleanup_uuid d am w id ≡ ok read
      → should_ignore_device am read card_id ≡ false
      → IsUnnamed w id card_id
  unnamed w id card_id read p clear n cfg = (
    read,
    uuid_read w id read n cfg p,
    λ named. let hit = (should_ignore_device_iff am read card_id).1 (n, cfg, named) in cc,
  )

  not_ignored :
      (w : W) (id : ℤ) (card_id : ℤ) (n : NodeConfig) (uuid : String)
      → am.node_config ≡ some n
      → ¬ Names n.filter_devices uuid card_id
      → should_ignore_device am uuid card_id ≡ false
  not_ignored w id card_id n uuid cfg free =
      elim (Bool-cases (should_ignore_device am uuid card_id)) [
        | inr clear ↦ clear
        | inl hit ↦
            let (n', cfg', named) = (should_ignore_device_iff am uuid card_id).0 hit in
            let same : n' ≡ n = cc in
            absurd (free (subst (λ z. Names z.filter_devices uuid card_id) same named))
      ]

  -- Conversely, such a device's turn does not end early.
  pub IsUnnamed-clear :
      (w : W) (id : ℤ) (card_id : ℤ)
      → IsUnnamed w id card_id
      → (read : String) × (cleanup_uuid d am w id ≡ ok read)
        × (should_ignore_device am read card_id ≡ false)
  unfolding cleanup_uuid has_uuid should_check_ignored is_empty should_ignore_device
  IsUnnamed-clear w id card_id all = elim (Option-cases am.node_config) [
    | inl nil ↦ ("", ground arith, ground arith)
    | inr (n, cfg) ↦
        let (uuid, from, free) = all n cfg in
        let clear = not_ignored w id card_id n uuid cfg free in
        elim (Bool-cases (should_check_ignored am && has_uuid (filter_devices am))) [
          | inr unread ↦
              ("", ground arith, ground (arith, no_uuid_listed (filter_devices am).uuid uuid ""))
          | inl read ↦ (uuid, elim from [ inl nil ↦ ground arith | inr die ↦ ground arith ], clear)
        ]
  ]

  v_devs_of-target :
      (w : W) (id : ℤ) (v : VDevInfo)
      → Memᴰ v (v_devs_of d am w id)
      → v.is_container_used ≡ 0
      → IsIdleTarget w id v
  unfolding v_devs_of
  v_devs_of-target w id v mem idle = elim (Result-cases (d.get_card_id_device_id w id)) [
    | inr (e, p) ↦ elim (rw (p, v_devs_of) at mem) [ ]
    | inl ((card_id, device_id), p) ↦ elim (Result-cases (cleanup_uuid d am w id)) [
      | inr (e, q) ↦ elim (rw (p, q, v_devs_of) at mem) [ ]
      | inl (read, q) ↦ elim (Bool-cases (should_ignore_device am read card_id)) [
        | inl ignored ↦ elim (rw (p, q, ignored, v_devs_of) at mem) [ ]
        | inr clear ↦ elim (Result-cases (d.get_virtual_device_info w id)) [
          | inr (e, r) ↦ elim (rw (p, q, clear, r, v_devs_of) at mem) [ ]
          | inl (infos, r) ↦ (
            idle,
            (infos, r, rw (p, q, clear, r, v_devs_of) at mem),
            (card_id, device_id, p, unnamed w id card_id read q clear),
          )
        ]
      ]
    ]
  ]

  module _ (P : W → Type 0)
      (step : (w seen : W) (id : ℤ) (v : VDevInfo)
        → IsIdleTarget seen id v
        → P w
        → P (d.destroy_virtual_device w id v.v_dev_id).1) where
    destroy_idle-keeps :
        (seen : W) (id : ℤ) (l : List VDevInfo) (n : ℕ) (w : W)
        → ((v : VDevInfo) → Memᴰ v l → v.is_container_used ≡ 0 → IsIdleTarget seen id v)
        → P w
        → P (destroy_idle d am id l n w).1
    unfolding destroy_idle
    destroy_idle-keeps seen id [] n w all h = h
    destroy_idle-keeps seen id (v ∷ l) n w all h = elim (Bool-cases (eqb v.is_container_used 0)) [
      | inl idle ↦
          rw (idle, destroy_idle)
            (destroy_idle-keeps seen id l (counted (d.destroy_virtual_device w id v.v_dev_id).0 n) _
              (λ v' m. all v' (Memᴰ.tail m))
              (step w seen id v (all v (Memᴰ.head refl) (ground arith)) h))
      | inr used ↦
          rw (used, destroy_idle)
            (destroy_idle-keeps seen id l n w (λ v' m. all v' (Memᴰ.tail m)) h)
    ]

    cleanup_devices-keeps :
        (ids : List ℤ) (n : ℕ) (w : W) → P w → P (cleanup_devices d am ids n w).1
    unfolding cleanup_devices
    cleanup_devices-keeps [] n w h = h
    cleanup_devices-keeps (id ∷ ids) n w h =
        let (n', w') = destroy_idle d am id (v_devs_of d am w id) n w in
        cleanup_devices-keeps ids n' w'
          (destroy_idle-keeps w id (v_devs_of d am w id) n w (v_devs_of-target w id) h)

    -- CleanupIdleVNPUs keeps whatever every destruction of an idle vNPU keeps, where the vNPU was listed
    -- as unused on a device that the filter does not name. So it destroys nothing else: no vNPU that a
    -- container uses, and none of an ignored device.
    pub cleanup_idle_vnpus-keeps : (w : W) → P w → P (cleanup_idle_vnpus d am w).1
    unfolding cleanup_idle_vnpus
    cleanup_idle_vnpus-keeps w h = elim (Result-cases (d.get_device_list w)) [
      | inr (e, p) ↦ rw (p, cleanup_idle_vnpus) h
      | inl (ids, p) ↦ rw (p, cleanup_idle_vnpus) (cleanup_devices-keeps ids 0 w h)
    ]
