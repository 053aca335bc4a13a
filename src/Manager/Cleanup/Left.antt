-- ===== src/Manager/Cleanup/Left.antt =====
-- internal/manager/manager.go, CleanupIdleVNPUs: which vNPUs are left.
use mathlib.Core.List.{append_assoc}
use ascend_device_plugin.Base.{
  ℕ, ℤ, String, false, ◌≡◌, ◌≢◌, refl, sym, subst, ap, ◌∙◌, inl, inr, List, [], ◌∷◌, ◌++◌, Memᴰ, ok,
  Bool-cases, arith, eqb, keep, mem_right,
}
use ascend_device_plugin.Manager.Driver.{DeviceInterface, VDevInfo}
use ascend_device_plugin.Manager.State.{AscendManager, should_ignore_device}
use ascend_device_plugin.Manager.Cleanup.{
  counted, destroy_idle, cleanup_uuid, v_devs_of, cleanup_devices, cleanup_idle_vnpus,
}
use ascend_device_plugin.Manager.Cleanup.Safety.{IsUnnamed, IsUnnamed-clear}
use ascend_device_plugin.Manager.Cleanup.Targets.{
  IsStable, IsDistinct, idle, destroy_all, destroy_idle-all, cleanup_uuid-destroy,
}
use ascend_device_plugin.Manager.Cleanup.Listed.{
  used, without, HasDistinctIds, without-middle, apart_passed,
}

-- Besides: a vNPU that is listed as idle can be destroyed, and then is the only one that the device lists
-- no more.
pub record IsDestroying {W : Type 0} (d : DeviceInterface W) : Type 0 where
  pub stable : IsStable d
  pub distinct :
      (w : W) (id : ℤ) (infos : List VDevInfo)
      → d.get_virtual_device_info w id ≡ ok infos
      → HasDistinctIds infos
  pub destroys :
      (w : W) (id : ℤ) (infos : List VDevInfo) (v : VDevInfo)
      → d.get_virtual_device_info w id ≡ ok infos
      → Memᴰ v infos
      → v.is_container_used ≡ 0
      → d.get_virtual_device_info (d.destroy_virtual_device w id v.v_dev_id).1 id
        ≡ ok (without v.v_dev_id infos)

module _ {W : Type 0} (d : DeviceInterface W) (am : AscendManager) (lawful : IsDestroying d) where
  -- The vNPUs before `l` are passed already.
  infos-destroy_idle :
      (id : ℤ) (l pre : List VDevInfo) (n : ℕ) (w : W)
      → d.get_virtual_device_info w id ≡ ok (pre ++ l)
      → HasDistinctIds l
      → ((u v : VDevInfo) → Memᴰ u pre → Memᴰ v l → u.v_dev_id ≢ v.v_dev_id)
      → d.get_virtual_device_info (destroy_idle d am id l n w).1 id ≡ ok (pre ++ keep used l)
  unfolding destroy_idle
  infos-destroy_idle id [] pre n w p distinct apart = p
  infos-destroy_idle id (v ∷ l) pre n w p distinct apart =
      elim (Bool-cases (eqb v.is_container_used 0)) [
        | inl hit ↦
            let now : d.get_virtual_device_info (d.destroy_virtual_device w id v.v_dev_id).1 id
                ≡ ok (pre ++ l) =
              lawful.destroys w id (pre ++ v ∷ l) v p (mem_right pre (v ∷ l) (Memᴰ.head refl))
                (ground arith)
              ∙ ap ok (without-middle pre v l (λ u m. apart u v m (Memᴰ.head refl)) distinct.0) in
            rw (hit, destroy_idle)
              (infos-destroy_idle id l pre (counted (d.destroy_virtual_device w id v.v_dev_id).0 n)
                _ now distinct.1 (λ u x m k. apart u x m (Memᴰ.tail k)))
        | inr miss ↦
            let passed = pre ++ v ∷ [] in
            let regrouped : passed ++ l ≡ pre ++ v ∷ l = append_assoc pre (v ∷ []) l in
            rw (miss, destroy_idle)
              (infos-destroy_idle id l passed n w (p ∙ ap ok (sym regrouped)) distinct.1
                  (apart_passed pre v l distinct.0 (λ u x m k. apart u x m (Memᴰ.tail k)))
                ∙ ap ok (append_assoc pre (v ∷ []) (keep used l)))
      ]

  card-destroy_all :
      (id id' : ℤ) (l : List VDevInfo) (w : W)
      → d.get_card_id_device_id (destroy_all d am (idle id' l) w) id ≡ d.get_card_id_device_id w id
  unfolding destroy_all
  card-destroy_all id id' [] w = refl
  card-destroy_all id id' (v ∷ l) w = elim (Bool-cases (eqb v.is_container_used 0)) [
    | inl hit ↦ rw hit (card-destroy_all id id' l _ ∙ lawful.stable.card w id id' v.v_dev_id)
    | inr miss ↦ rw miss (card-destroy_all id id' l w)
  ]

  cleanup_uuid-destroy_all :
      (id id' : ℤ) (l : List VDevInfo) (w : W)
      → cleanup_uuid d am (destroy_all d am (idle id' l) w) id ≡ cleanup_uuid d am w id
  unfolding destroy_all
  cleanup_uuid-destroy_all id id' [] w = refl
  cleanup_uuid-destroy_all id id' (v ∷ l) w = elim (Bool-cases (eqb v.is_container_used 0)) [
    | inl hit ↦ rw hit (
        cleanup_uuid-destroy_all id id' l _
        ∙ cleanup_uuid-destroy d am lawful.stable w id id' v.v_dev_id)
    | inr miss ↦ rw miss (cleanup_uuid-destroy_all id id' l w)
  ]

  infos-turn :
      (w : W) (id : ℤ) (infos : List VDevInfo)
      → d.get_virtual_device_info w id ≡ ok infos
      → d.get_virtual_device_info (destroy_all d am (idle id infos) w) id ≡ ok (keep used infos)
  infos-turn w id infos p =
      ap (λ x. d.get_virtual_device_info x id) (sym (destroy_idle-all d am id infos 0 w))
      ∙ infos-destroy_idle id infos [] 0 w p (lawful.distinct w id infos p) (λ u v m k. elim m [ ])

  -- The device can be read, is not ignored, and lists these vNPUs.
  abbrev Reads : W → ℤ → List VDevInfo → Type 0
  Reads w id infos =
      (card_id : ℤ) × (device_id : ℤ) × (uuid : String) × (d.get_card_id_device_id w id
        ≡ ok (card_id, device_id))
      × (cleanup_uuid d am w id ≡ ok uuid)
      × (should_ignore_device am uuid card_id ≡ false)
      × (d.get_virtual_device_info w id ≡ ok infos)

  Reads-v_devs_of :
      (w : W) (id : ℤ) (infos : List VDevInfo) → Reads w id infos → v_devs_of d am w id ≡ infos
  unfolding v_devs_of
  Reads-v_devs_of w id infos (card_id, device_id, uuid, p, q, clear, r) =
      rw (p, q, clear, r, v_devs_of) refl

  listed :
      (w : W) (id : ℤ) (infos : List VDevInfo)
      → Reads w id infos
      → d.get_virtual_device_info w id ≡ ok infos
  listed w id infos (_, _, _, _, _, _, r) = r

  infos-destroy_all :
      (id id' : ℤ) (l : List VDevInfo) (w : W)
      → id ≢ id'
      → d.get_virtual_device_info (destroy_all d am (idle id' l) w) id
        ≡ d.get_virtual_device_info w id
  unfolding destroy_all
  infos-destroy_all id id' [] w ne = refl
  infos-destroy_all id id' (v ∷ l) w ne = elim (Bool-cases (eqb v.is_container_used 0)) [
    | inl hit ↦
        rw hit (infos-destroy_all id id' l _ ne ∙ lawful.stable.infos w id id' v.v_dev_id ne)
    | inr miss ↦ rw miss (infos-destroy_all id id' l w ne)
  ]

  -- The other devices' turns change nothing of what a device lists.
  infos-others :
      (ids : List ℤ) (id : ℤ) (n : ℕ) (w : W)
      → ((other : ℤ) → Memᴰ other ids → other ≢ id)
      → d.get_virtual_device_info (cleanup_devices d am ids n w).1 id
        ≡ d.get_virtual_device_info w id
  unfolding cleanup_devices
  infos-others [] id n w h = refl
  infos-others (other ∷ ids) id n w h =
      let l = v_devs_of d am w other in
      let (n', w') = destroy_idle d am other l n w in
      infos-others ids id n' w' (λ o m. h o (Memᴰ.tail m))
      ∙ ap (λ x. d.get_virtual_device_info x id) (destroy_idle-all d am other l n w)
      ∙ infos-destroy_all id other l w (λ e. h other (Memᴰ.head refl) (sym e))

  -- Nor do they change whether it is read.
  Reads-others :
      (w : W) (id other : ℤ) (l : List VDevInfo) (infos : List VDevInfo) (n : ℕ)
      → id ≢ other
      → Reads w id infos
      → Reads (destroy_idle d am other l n w).1 id infos
  Reads-others w id other l infos n ne (card_id, device_id, uuid, p, q, clear, r) =
      rw (destroy_idle-all d am other l n w) (
        card_id,
        device_id,
        uuid,
        card-destroy_all id other l w ∙ p,
        cleanup_uuid-destroy_all id other l w ∙ q,
        clear,
        infos-destroy_all id other l w ne ∙ r,
      )

  cleanup_devices-left :
      (ids : List ℤ) (n : ℕ) (w : W) (infos : List VDevInfo)
      → IsDistinct ids
      → (id : ℤ) → Memᴰ id ids
      → Reads w id infos
      → d.get_virtual_device_info (cleanup_devices d am ids n w).1 id ≡ ok (keep used infos)
  unfolding cleanup_devices
  cleanup_devices-left [] n w infos distinct id m reads = elim m [ ]
  cleanup_devices-left (first ∷ ids) n w infos distinct id (Memᴰ.tail m) reads =
      let l = v_devs_of d am w first in
      let (n', w') = destroy_idle d am first l n w in
      cleanup_devices-left ids n' w' infos distinct.1 id m
        (Reads-others w id first l infos n (distinct.0 id m) reads)
  cleanup_devices-left (first ∷ ids) n w infos distinct id (Memᴰ.head e) reads =
      let l = v_devs_of d am w first in
      let (n', w') = destroy_idle d am first l n w in
      let here : Reads w first infos = subst (λ x. Reads w x infos) e reads in
      let after : d.get_virtual_device_info w' first ≡ ok (keep used infos) =
        ap (λ x. d.get_virtual_device_info x first) (destroy_idle-all d am first l n w)
        ∙ ap (λ x. d.get_virtual_device_info (destroy_all d am (idle first x) w) first)
            (Reads-v_devs_of w first infos here)
        ∙ infos-turn w first infos (listed w first infos here) in
      subst
        (λ x. d.get_virtual_device_info (cleanup_devices d am ids n' w').1 x ≡ ok (keep used infos))
        (sym e) (infos-others ids first n' w' distinct.0 ∙ after)

  -- With a driver that lists no device and no vNPU twice and can destroy what it lists as idle, touching
  -- nothing else: after CleanupIdleVNPUs the driver lists, for every listed device whose card and vNPUs
  -- can be read and that the node's filter does not name, exactly those of its vNPUs that a container
  -- uses, in order.
  pub cleanup_idle_vnpus-left :
      (w : W) (ids : List ℤ)
      → d.get_device_list w ≡ ok ids
      → IsDistinct ids
      → (id card_id device_id : ℤ) (infos : List VDevInfo) → Memᴰ id ids
      → d.get_card_id_device_id w id ≡ ok (card_id, device_id)
      → IsUnnamed d am w id card_id
      → d.get_virtual_device_info w id ≡ ok infos
      → d.get_virtual_device_info (cleanup_idle_vnpus d am w).1 id ≡ ok (keep used infos)
  unfolding cleanup_idle_vnpus
  cleanup_idle_vnpus-left w ids p distinct id card_id device_id infos m card unnamed r =
      let (uuid, q, clear) = IsUnnamed-clear d am w id card_id unnamed in
      rw (p, cleanup_idle_vnpus)
        (cleanup_devices-left ids 0 w infos distinct id m
          (card_id, device_id, uuid, card, q, clear, r))
