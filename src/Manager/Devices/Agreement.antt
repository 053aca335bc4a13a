-- ===== src/Manager/Devices/Agreement.antt =====
-- internal/manager/manager.go: GetIDs and GetUnHealthIDs, which ask the driver, against the devices that
-- UpdateDevice caches.
use ascend_device_plugin.Base.{
  ℤ, String, true, false, not, ◌≡◌, refl, subst, ap, inl, inr, List, [], ◌∷◌, map, some, ok, keep,
  length, ltb, arith, eq_iff, Bool-cases, ◌==◌,
}
use ascend_device_plugin.Config.{NodeConfig, has_uuid}
use ascend_device_plugin.Manager.Driver.{DeviceInterface}
use ascend_device_plugin.Manager.State.{
  Device, AscendManager, should_ignore_device, should_check_ignored, filter_devices, lists_uuid,
}
use ascend_device_plugin.Manager.Devices.{
  update_device, get_devices, find_device, get_device_by_uuid, is_available, available_ids, get_ids,
  is_unhealthy, unhealthy_ids, get_un_health_ids,
}
use ascend_device_plugin.Manager.Devices.Ignored.{Names, should_ignore_device_iff}
use ascend_device_plugin.Manager.Devices.Refresh.{
  IsReading, IsLeftOut, AreRead, done, leave, take, update_device_lem,
}

pub no_uuid_listed :
    (l : List String) (u v : String) → ltb 0 (length l) ≡ false → lists_uuid u l ≡ lists_uuid v l
unfolding lists_uuid
no_uuid_listed [] u v h = refl
no_uuid_listed (x ∷ l) u v h = ground arith

module _ {W : Type 0} (d : DeviceInterface W) (w : W) (am : AscendManager) where
  -- The filter reads the uuid only where one is listed, and that makes no difference.
  available-ignored :
      (id card_id device_id : ℤ) (uuid : String)
      → d.get_card_id_device_id w id ≡ ok (card_id, device_id)
      → d.get_die_id w id ≡ ok uuid
      → is_available d w am id ≡ not (should_ignore_device am uuid card_id)
  unfolding is_available has_uuid should_ignore_device
  available-ignored id card_id device_id uuid p q =
      ground (arith, no_uuid_listed (filter_devices am).uuid uuid "")

  pub unchecked :
      (uuid : String) (index : ℤ)
      → should_check_ignored am ≡ false
      → should_ignore_device am uuid index ≡ false
  unfolding should_ignore_device
  unchecked uuid index h = ground arith

  abbrev pub logic_ids : List Device → List ℤ
  logic_ids = map λ dev. dev.logic_id

  abbrev pub unhealthy : List Device → List Device
  unhealthy = keep λ dev. not dev.health

  left_out-available : (id : ℤ) → IsLeftOut d w am id → is_available d w am id ≡ false
  left_out-available id (card_id, device_id, uuid, p, q, ignored) =
      ground (arith, available-ignored id card_id device_id uuid p q)

  reading-available :
      (dev : Device) → IsReading d w am dev → is_available d w am dev.logic_id ≡ true
  reading-available dev (_, p, q, _, _, _, passed) =
      ground (arith, available-ignored dev.logic_id dev.card_id dev.device_id dev.uuid p q)

  AreRead-available_ids :
      {ids : List ℤ} {devs : List Device}
      → AreRead d w am ids devs
      → available_ids d w am ids ≡ logic_ids devs
  unfolding available_ids
  AreRead-available_ids done = refl
  AreRead-available_ids (leave id out rest) =
      rw (left_out-available id out) (AreRead-available_ids rest)
  AreRead-available_ids (take id dev e reading rest) =
      rw (← e)
        (rw (reading-available dev reading) (ap (◌∷◌ dev.logic_id) (AreRead-available_ids rest)))

  AreRead-all :
      {ids : List ℤ} {devs : List Device}
      → should_check_ignored am ≡ false
      → AreRead d w am ids devs
      → ids ≡ logic_ids devs
  AreRead-all h done = refl
  AreRead-all h (leave id (card_id, device_id, uuid, p, q, ignored) rest) =
      ground (arith, unchecked uuid card_id h)
  AreRead-all h (take id dev e reading rest) = cc (AreRead-all h rest)

  left_out-is_unhealthy : (id : ℤ) → IsLeftOut d w am id → is_unhealthy d w am id ≡ false
  unfolding is_unhealthy
  left_out-is_unhealthy id (card_id, device_id, uuid, p, q, ignored) =
      ground (arith, unchecked uuid card_id, available-ignored id card_id device_id uuid p q)

  reading-is_unhealthy :
      (dev : Device) → IsReading d w am dev → is_unhealthy d w am dev.logic_id ≡ not dev.health
  unfolding is_unhealthy
  reading-is_unhealthy dev (r, p, q, (code, k, e), s, t, passed) =
      ground (arith, available-ignored dev.logic_id dev.card_id dev.device_id dev.uuid p q)

  AreRead-unhealthy_ids :
      {ids : List ℤ} {devs : List Device}
      → AreRead d w am ids devs
      → unhealthy_ids d w am ids ≡ logic_ids (unhealthy devs)
  unfolding unhealthy_ids
  AreRead-unhealthy_ids done = refl
  AreRead-unhealthy_ids (leave id out rest) =
      rw (left_out-is_unhealthy id out) (AreRead-unhealthy_ids rest)
  AreRead-unhealthy_ids (take id dev e reading rest) =
      ground (arith, reading-is_unhealthy dev reading, AreRead-unhealthy_ids rest)

  -- After a refresh the cached devices are those that GetIDs lists, in its order, and GetUnHealthIDs
  -- lists those of them whose cached health is false.
  pub update_device-get_ids :
      (update_device d w am).0 ≡ ok tt
      → (let devs = get_devices (update_device d w am).1 in
          (get_ids d w am ≡ logic_ids devs)
          × (get_un_health_ids d w am ≡ logic_ids (unhealthy devs)))
  unfolding get_ids get_un_health_ids get_devices
  update_device-get_ids h = elim (update_device_lem d w am) [
    | inl (e, p) ↦ ground arith
    | inr (ids, devs, q, p, read) ↦ ground (
      arith,
      λ (c : should_check_ignored am ≡ false). AreRead-all c read,
      AreRead-available_ids read,
      AreRead-unhealthy_ids read,
    )
  ]

module _ {W : Type 0} (d : DeviceInterface W) (w : W) (am : AscendManager) where
  AreRead-find_device :
      {ids : List ℤ} {devs : List Device} (uuid : String) (dev : Device)
      → AreRead d w am ids devs
      → find_device uuid devs ≡ some dev
      → (dev.uuid ≡ uuid) × IsReading d w am dev
  unfolding find_device
  AreRead-find_device uuid dev done h = cc
  AreRead-find_device uuid dev (leave id out rest) h = AreRead-find_device uuid dev rest h
  AreRead-find_device uuid dev (take id dev' e reading rest) h =
      elim (Bool-cases (dev'.uuid == uuid)) [
        | inl hit ↦
            let same : dev' ≡ dev = ground arith in
            subst (λ x. (x.uuid ≡ uuid) × IsReading d w am x) same
              ((eq_iff dev'.uuid uuid).0 hit, reading)
        | inr miss ↦ AreRead-find_device uuid dev rest (rw miss at h)
      ]

  -- After a refresh a uuid is looked up to a device that carries it and is as the driver reports it, and
  -- never to one that the node's filter names, by that uuid or by the card's index.
  pub update_device-get_device_by_uuid :
      (uuid : String) (dev : Device)
      → (update_device d w am).0 ≡ ok tt
      → get_device_by_uuid (update_device d w am).1 uuid ≡ some dev
      → (dev.uuid ≡ uuid)
        × IsReading d w am dev
        × ((n : NodeConfig) → am.node_config ≡ some n → ¬ Names n.filter_devices uuid dev.card_id)
  unfolding get_device_by_uuid
  update_device-get_device_by_uuid uuid dev h found = elim (update_device_lem d w am) [
    | inl (e, p) ↦ ground arith
    | inr (ids, devs, q, p, read) ↦
        let (same, reading) = AreRead-find_device uuid dev read (rw p at found) in
        (
          same,
          reading,
          λ n e named.
              let ignored = (should_ignore_device_iff am uuid dev.card_id).1 (n, e, named) in
              let passed = reading.6 in cc,
        )
  ]
