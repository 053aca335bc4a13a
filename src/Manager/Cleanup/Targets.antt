-- ===== src/Manager/Cleanup/Targets.antt =====
-- internal/manager/manager.go, CleanupIdleVNPUs: the loop as "query first, then destroy".
use ascend_device_plugin.Base.{
  ℕ, ℤ, ◌≡◌, ◌≢◌, refl, sym, ap, ◌∙◌, inl, inr, List, [], ◌∷◌, ◌++◌, Memᴰ, ok, Bool-cases, arith,
  eqb, if◌then◌else◌,
}
use ascend_device_plugin.Manager.Driver.{DeviceInterface, VDevInfo}
use ascend_device_plugin.Manager.State.{AscendManager}
use ascend_device_plugin.Manager.Cleanup.{
  counted, destroy_idle, cleanup_uuid, v_devs_of, cleanup_devices, cleanup_idle_vnpus,
}

-- Destroying a vNPU changes neither a card's ids nor the vNPUs of another device.
pub record IsStable {W : Type 0} (d : DeviceInterface W) : Type 0 where
  pub card :
      (w : W) (id id' : ℤ) (v : ℕ)
      → d.get_card_id_device_id (d.destroy_virtual_device w id' v).1 id
        ≡ d.get_card_id_device_id w id
  pub die :
      (w : W) (id id' : ℤ) (v : ℕ)
      → d.get_die_id (d.destroy_virtual_device w id' v).1 id ≡ d.get_die_id w id
  pub infos :
      (w : W) (id id' : ℤ) (v : ℕ)
      → id ≢ id'
      → d.get_virtual_device_info (d.destroy_virtual_device w id' v).1 id
        ≡ d.get_virtual_device_info w id

-- The driver lists no device twice.
abbrev pub IsDistinct : List ℤ → Type 0
IsDistinct [] = Unit {0}
IsDistinct (id ∷ ids) = ((other : ℤ) → Memᴰ other ids → other ≢ id) × IsDistinct ids

-- The vNPUs of a device that no container uses, in order.
abbrev pub idle : ℤ → List VDevInfo → List (ℤ × ℕ)
idle id [] = []
idle id (v ∷ l) =
    let rest = idle id l in if eqb v.is_container_used 0 then (id, v.v_dev_id) ∷ rest else rest

module _ {W : Type 0} (d : DeviceInterface W) (am : AscendManager) where
  unfoldable pub destroy_all : List (ℤ × ℕ) → W → W
  destroy_all [] w = w
  destroy_all ((id, v) ∷ targets) w = destroy_all targets (d.destroy_virtual_device w id v).1

  -- What is idle on the devices, all read in one state.
  unfoldable pub targets : W → List ℤ → List (ℤ × ℕ)
  targets w [] = []
  targets w (id ∷ ids) = idle id (v_devs_of d am w id) ++ targets w ids

  destroy_all-append :
      (xs ys : List (ℤ × ℕ)) (w : W) → destroy_all (xs ++ ys) w ≡ destroy_all ys (destroy_all xs w)
  unfolding destroy_all
  destroy_all-append [] ys w = refl
  destroy_all-append ((id, v) ∷ xs) ys w = destroy_all-append xs ys _

  pub destroy_idle-all :
      (id : ℤ) (l : List VDevInfo) (n : ℕ) (w : W)
      → (destroy_idle d am id l n w).1 ≡ destroy_all (idle id l) w
  unfolding destroy_idle destroy_all
  destroy_idle-all id [] n w = refl
  destroy_idle-all id (v ∷ l) n w = elim (Bool-cases (eqb v.is_container_used 0)) [
    | inl hit ↦
        rw (hit, destroy_idle)
          (destroy_idle-all id l (counted (d.destroy_virtual_device w id v.v_dev_id).0 n) _)
    | inr miss ↦ rw (miss, destroy_idle) (destroy_idle-all id l n w)
  ]

  module _ (stable : IsStable d) where
    pub cleanup_uuid-destroy :
        (w : W) (id id' : ℤ) (v : ℕ)
        → cleanup_uuid d am (d.destroy_virtual_device w id' v).1 id ≡ cleanup_uuid d am w id
    unfolding cleanup_uuid
    cleanup_uuid-destroy w id id' v = rw (stable.die w id id' v)

    v_devs_of-destroy :
        (w : W) (id id' : ℤ) (v : ℕ)
        → id ≢ id'
        → v_devs_of d am (d.destroy_virtual_device w id' v).1 id ≡ v_devs_of d am w id
    unfolding v_devs_of
    v_devs_of-destroy w id id' v ne =
        ground (
          arith,
          stable.card w id id' v,
          cleanup_uuid-destroy w id id' v,
          stable.infos w id id' v ne,
        )

    pub v_devs_of-destroy_all :
        (id id' : ℤ) (l : List VDevInfo) (w : W)
        → id ≢ id'
        → v_devs_of d am (destroy_all (idle id' l) w) id ≡ v_devs_of d am w id
    unfolding destroy_all
    v_devs_of-destroy_all id id' [] w ne = refl
    v_devs_of-destroy_all id id' (v ∷ l) w ne = elim (Bool-cases (eqb v.is_container_used 0)) [
      | inl hit ↦
          rw hit (v_devs_of-destroy_all id id' l _ ne ∙ v_devs_of-destroy w id id' v.v_dev_id ne)
      | inr miss ↦ rw miss (v_devs_of-destroy_all id id' l w ne)
    ]

    targets-destroy_all :
        (id : ℤ) (l : List VDevInfo) (ids : List ℤ) (w : W)
        → ((other : ℤ) → Memᴰ other ids → other ≢ id)
        → targets (destroy_all (idle id l) w) ids ≡ targets w ids
    unfolding targets
    targets-destroy_all id l [] w ne = refl
    targets-destroy_all id l (other ∷ ids) w ne = rw (
      v_devs_of-destroy_all other id l w (ne other (Memᴰ.head refl)),
      targets-destroy_all id l ids w (λ o m. ne o (Memᴰ.tail m)),
    )

    cleanup_devices-all :
        (ids : List ℤ) (n : ℕ) (w : W)
        → IsDistinct ids
        → (cleanup_devices d am ids n w).1 ≡ destroy_all (targets w ids) w
    unfolding cleanup_devices targets
    cleanup_devices-all [] n w h = unfold destroy_all in refl
    cleanup_devices-all (id ∷ ids) n w h =
        let l = v_devs_of d am w id in
        let (n', w') = destroy_idle d am id l n w in
        cleanup_devices-all ids n' w' h.1
        ∙ ap (λ x. destroy_all (targets x ids) x) (destroy_idle-all id l n w)
        ∙ ap (λ t. destroy_all t (destroy_all (idle id l) w)) (targets-destroy_all id l ids w h.0)
        ∙ sym (destroy_all-append (idle id l) (targets w ids) w)

    -- Given a driver that lists each device once and whose destructions leave the other devices alone,
    -- CleanupIdleVNPUs does what reading all devices first and then destroying, in order, every vNPU
    -- found idle on a device that can be read and is not ignored would do: it misses none.
    pub cleanup_idle_vnpus-all :
        (w : W) (ids : List ℤ)
        → d.get_device_list w ≡ ok ids
        → IsDistinct ids
        → cleanup_idle_vnpus d am w ≡ (ok tt, destroy_all (targets w ids) w)
    unfolding cleanup_idle_vnpus
    cleanup_idle_vnpus-all w ids p h =
        rw (p, cleanup_idle_vnpus) (ground (arith, cleanup_devices-all ids 0 w h))
