-- ===== src/Manager/Devices/Refresh.antt =====
-- internal/manager/manager.go, UpdateDevice: what the cache holds after a refresh, against the driver and
-- against the queries that bypass the cache.
use ascend_device_plugin.Base.{
  ℕ, ℤ, String, true, false, ◌≡◌, ◌⊎◌, refl, subst, inl, inr, List, [], ◌∷◌, Option, some, none, ok,
  err, Error, Result-cases, eqb, arith, Bool-cases,
}
use ascend_device_plugin.Manager.Driver.{DeviceInterface}
use ascend_device_plugin.Manager.State.{Device, AscendManager, should_ignore_device}
use ascend_device_plugin.Manager.Devices.{read_device, read_devices, add_device, update_device}

module _ {W : Type 0} (d : DeviceInterface W) (w : W) (am : AscendManager) where
  -- The driver's answers that make up a device.
  abbrev pub IsReading : Device → Type 0
  IsReading dev =
      (d.get_physic_id_from_logic_id w dev.logic_id ≡ ok dev.phy_id)
      × (d.get_card_id_device_id w dev.logic_id ≡ ok (dev.card_id, dev.device_id))
      × (d.get_die_id w dev.logic_id ≡ ok dev.uuid)
      × ((code : ℕ) × (d.get_device_health w dev.logic_id ≡ ok code) × (dev.health ≡ eqb code 0))
      × (dev.memory ≡ am.config.memory_allocatable)
      × (dev.ai_core ≡ am.config.ai_core)
      × (should_ignore_device am dev.uuid dev.card_id ≡ false)

  -- A device of the driver's list that is left out is ignored by what the driver says of it.
  abbrev pub IsLeftOut : ℤ → Type 0
  IsLeftOut id =
      (card_id device_id : ℤ) × (uuid : String) × (d.get_card_id_device_id w id
        ≡ ok (card_id, device_id))
      × (d.get_die_id w id ≡ ok uuid)
      × (should_ignore_device am uuid card_id ≡ true)

  abbrev pub IsRead : ℤ → Option Device → Type 0
  IsRead id none = IsLeftOut id
  IsRead id (some dev) = (dev.logic_id ≡ id) × IsReading dev

  read_device-cases :
      (id : ℤ)
      → ((e : Error) × (read_device d w am id ≡ err e))
        ⊎ ((r : Option Device) × (read_device d w am id ≡ ok r) × IsRead id r)
  unfolding read_device
  read_device-cases id = elim (Result-cases (d.get_physic_id_from_logic_id w id)) [
    | inr (e, p) ↦ inl (e, ground arith)
    | inl (phy_id, p) ↦ elim (Result-cases (d.get_card_id_device_id w id)) [
      | inr (e, q) ↦ inl (e, ground arith)
      | inl ((card_id, device_id), q) ↦ elim (Result-cases (d.get_die_id w id)) [
        | inr (e, u) ↦ inl (e, ground arith)
        | inl (uuid, u) ↦ elim (Bool-cases (should_ignore_device am uuid card_id)) [
          | inl ignored ↦ inr (none, ground arith, (card_id, device_id, uuid, q, u, ignored))
          | inr passed ↦ elim (Result-cases (d.get_device_health w id)) [
            | inr (e, k) ↦ inl (e, ground arith)
            | inl (code, k) ↦ inr (
              some (record {
                uuid = uuid;
                logic_id = id;
                phy_id = phy_id;
                card_id = card_id;
                device_id = device_id;
                memory = am.config.memory_allocatable;
                ai_core = am.config.ai_core;
                health = eqb code 0;
              }),
              ground arith,
              (refl, (p, q, u, (code, k, refl), refl, refl, passed)),
            )
          ]
        ]
      ]
    ]
  ]

  -- The devices kept, against the driver's list: each id is read or left out.
  pub data AreRead : List ℤ → List Device → Type 0 where
    done : AreRead [] []
    leave :
        {ids : List ℤ} {devs : List Device} (id : ℤ)
        → IsLeftOut id
        → AreRead ids devs
        → AreRead (id ∷ ids) devs
    take :
        {ids : List ℤ} {devs : List Device} (id : ℤ) (dev : Device)
        → dev.logic_id ≡ id
        → IsReading dev
        → AreRead ids devs
        → AreRead (id ∷ ids) (dev ∷ devs)

  add :
      (id : ℤ) (r : Option Device) (ids : List ℤ) (devs : List Device)
      → IsRead id r
      → AreRead ids devs
      → AreRead (id ∷ ids) (add_device r devs)
  add id none ids devs out rest = leave id out rest
  add id (some dev) ids devs (e, reading) rest = take id dev e reading rest

  read_devices-AreRead :
      (ids : List ℤ) (devs : List Device) → read_devices d w am ids ≡ ok devs → AreRead ids devs
  unfolding read_devices
  read_devices-AreRead [] devs h = subst (AreRead []) (ground arith) done
  read_devices-AreRead (id ∷ ids) devs h = elim (read_device-cases id) [
    | inl (e, p) ↦ ground arith
    | inr (r, p, is_read) ↦ elim (Result-cases (read_devices d w am ids)) [
      | inr (e, q) ↦ ground arith
      | inl (rest, q) ↦
          subst (AreRead (id ∷ ids)) {y = devs} (ground arith)
            (add id r ids rest is_read (read_devices-AreRead ids rest q))
    ]
  ]

  -- UpdateDevice either fails and leaves the manager as it was, or replaces the cached devices alone, by
  -- the driver's devices in the driver's order without the ignored ones: each with the ids, the uuid and
  -- the health that the driver reports, and the memory and cores of the configuration.
  pub update_device_lem :
      ((e : Error) × (update_device d w am ≡ (err e, am)))
      ⊎ ((ids : List ℤ) × (devs : List Device) × (d.get_device_list w ≡ ok ids)
          × (update_device d w am ≡ (ok tt, record am { devs = devs }))
          × AreRead ids devs)
  unfolding update_device
  update_device_lem = elim (Result-cases (d.get_device_list w)) [
    | inr (e, p) ↦ inl (e, ground arith)
    | inl (ids, p) ↦ elim (Result-cases (read_devices d w am ids)) [
      | inr (e, q) ↦ inl (e, ground arith)
      | inl (devs, q) ↦ inr (ids, devs, p, ground arith, read_devices-AreRead ids devs q)
    ]
  ]
