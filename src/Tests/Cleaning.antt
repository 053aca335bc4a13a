-- ===== src/Tests/Cleaning.antt =====
-- A driver whose first card has three vNPUs and forgets those that are destroyed.
use ascend_device_plugin.Base.{
  ℕ, zero, suc, ℤ, pos, negsuc, Bool, ◌≡◌, ◌≢◌, refl, inl, inr, List, [], ◌∷◌, Memᴰ, Result, ok,
  keep, Bool-cases, arith, ap, subst, ok-eq-ok, Option, some, eq_iff,
}
use ascend_device_plugin.Config.{NodeConfig}
use ascend_device_plugin.Manager.Devices.Ignored.{Names}
use ascend_device_plugin.Manager.Driver.{DeviceInterface, VDevInfo}
use ascend_device_plugin.Manager.Cleanup.{cleanup_idle_vnpus}
use ascend_device_plugin.Manager.Cleanup.Safety.{IsUnnamed}
use ascend_device_plugin.Manager.Cleanup.Targets.{IsDistinct}
use ascend_device_plugin.Manager.Cleanup.Listed.{without, HasDistinctIds}
use ascend_device_plugin.Manager.Cleanup.Left.{IsDestroying, cleanup_idle_vnpus-left}
use ascend_device_plugin.Tests.Fixtures.{sample_manager, node_config, v_dev, die_of, health_of}

-- The state is the list of the destroyed vNPUs, the latest first.
listed : List ℕ → List VDevInfo
listed [] = v_dev 100 0 ∷ v_dev 101 1 ∷ v_dev 102 0 ∷ []
listed (id ∷ gone) = without id (listed gone)

infos_of : List ℕ → ℤ → Result (List VDevInfo)
infos_of gone (pos zero) = ok (listed gone)
infos_of gone _ = ok []

destroyed : List ℕ → ℤ → ℕ → List ℕ
destroyed gone (pos zero) v = v ∷ gone
destroyed gone _ v = gone

abbrev forgetful : DeviceInterface (List ℕ)
forgetful = record {
  get_valid_chip_info = λ w. ok (record { chip_type = "Ascend"; name = "310P3" });
  device_type_by_chip_name = λ name. "Ascend310P";
  get_device_list = λ w. ok (pos 0 ∷ pos 1 ∷ []);
  get_device_memory_info = sample_driver_memory;
  get_physic_id_from_logic_id = λ w id. ok id;
  get_card_id_device_id = λ w id. ok (id, pos 0);
  get_die_id = λ w id. die_of id;
  get_device_health = λ w id. health_of id;
  get_virtual_device_info = infos_of;
  destroy_virtual_device = λ w id v. (ok tt, destroyed w id v);
}
  where
    sample_driver_memory : List ℕ → ℤ → Result (Option ℕ)
    sample_driver_memory w id = ok (some 49152)

mem_of_keep :
    (p : VDevInfo → Bool) (u : VDevInfo) (l : List VDevInfo) → Memᴰ u (keep p l) → Memᴰ u l
mem_of_keep p u [] m = m
mem_of_keep p u (v ∷ l) m = elim (Bool-cases (p v)) [
  | inl kept ↦ deeper (λ k. mem_of_keep p u l k) (rw kept at m)
  | inr left ↦ Memᴰ.tail (mem_of_keep p u l (rw left at m))
]
  where
    deeper : (Memᴰ u (keep p l) → Memᴰ u l) → Memᴰ u (v ∷ keep p l) → Memᴰ u (v ∷ l)
    deeper later (Memᴰ.head e) = Memᴰ.head e
    deeper later (Memᴰ.tail k) = Memᴰ.tail (later k)

keep-HasDistinctIds :
    (p : VDevInfo → Bool) (l : List VDevInfo) → HasDistinctIds l → HasDistinctIds (keep p l)
keep-HasDistinctIds p [] h = tt
keep-HasDistinctIds p (v ∷ l) h = elim (Bool-cases (p v)) [
  | inl kept ↦ rw kept ((λ u m. h.0 u (mem_of_keep p u l m)), keep-HasDistinctIds p l h.1)
  | inr left ↦ rw left (keep-HasDistinctIds p l h.1)
]

not_101 : (u : VDevInfo) → Memᴰ u (v_dev 102 0 ∷ []) → u.v_dev_id ≢ 101
not_101 u (Memᴰ.head e) h = absurd (omega (arith, ap (λ v. v.v_dev_id) e))
not_101 u (Memᴰ.tail m) h = elim m [ ]

not_100 : (u : VDevInfo) → Memᴰ u (v_dev 101 1 ∷ v_dev 102 0 ∷ []) → u.v_dev_id ≢ 100
not_100 u (Memᴰ.head e) h = absurd (omega (arith, ap (λ v. v.v_dev_id) e))
not_100 u (Memᴰ.tail (Memᴰ.head e)) h = absurd (omega (arith, ap (λ v. v.v_dev_id) e))
not_100 u (Memᴰ.tail (Memᴰ.tail m)) h = elim m [ ]

listed-HasDistinctIds : (gone : List ℕ) → HasDistinctIds (listed gone)
unfolding listed
listed-HasDistinctIds [] = (not_100, (not_101, ((λ u m. elim m [ ]), tt)))
listed-HasDistinctIds (id ∷ gone) = keep-HasDistinctIds _ (listed gone) (listed-HasDistinctIds gone)

infos_of-others :
    (w : List ℕ) (id id' : ℤ) (v : ℕ) → id ≢ id' → infos_of (destroyed w id' v) id ≡ infos_of w id
unfolding infos_of destroyed
infos_of-others w (pos zero) (pos zero) v h = absurd (h refl)
infos_of-others w (pos zero) (pos (suc n)) v h = refl
infos_of-others w (pos zero) (negsuc n) v h = refl
infos_of-others w (pos (suc n)) id' v h = refl
infos_of-others w (negsuc n) id' v h = refl

infos_of-distinct :
    (w : List ℕ) (id : ℤ) (infos : List VDevInfo) → infos_of w id ≡ ok infos → HasDistinctIds infos
unfolding infos_of
infos_of-distinct w (pos zero) infos p = subst HasDistinctIds (ok-eq-ok p) (listed-HasDistinctIds w)
infos_of-distinct w (pos (suc n)) infos p = subst HasDistinctIds (ok-eq-ok p) tt
infos_of-distinct w (negsuc n) infos p = subst HasDistinctIds (ok-eq-ok p) tt

infos_of-destroyed :
    (w : List ℕ) (id : ℤ) (infos : List VDevInfo) (v : VDevInfo)
    → infos_of w id ≡ ok infos
    → Memᴰ v infos
    → infos_of (destroyed w id v.v_dev_id) id ≡ ok (without v.v_dev_id infos)
unfolding infos_of destroyed listed
infos_of-destroyed w (pos zero) infos v p m = ap (λ l. ok (without v.v_dev_id l)) (ok-eq-ok p)
infos_of-destroyed w (pos (suc n)) infos v p m = ap (λ l. ok (without v.v_dev_id l)) (ok-eq-ok p)
infos_of-destroyed w (negsuc n) infos v p m = ap (λ l. ok (without v.v_dev_id l)) (ok-eq-ok p)

lawful : IsDestroying forgetful
lawful = record {
  stable = record { card = λ w id id' v. refl; die = λ w id id' v. refl; infos = infos_of-others };
  distinct = infos_of-distinct;
  destroys = λ w id infos v p m idle. infos_of-destroyed w id infos v p m;
}

only_second : (other : ℤ) → Memᴰ other (pos 1 ∷ []) → other ≢ pos 0
only_second other (Memᴰ.head e) h = ground arith
only_second other (Memᴰ.tail m) h = elim m [ ]

distinct : IsDistinct (pos 0 ∷ pos 1 ∷ [])
distinct = (only_second, ((λ other m. elim m [ ]), tt))

not_named : ¬ Names (node_config ("die-1" ∷ []) []).filter_devices "die-0" (pos 0)
not_named (inl (ne, Memᴰ.head e)) = ground (arith, eq_iff "die-0" "die-1")
not_named (inl (ne, Memᴰ.tail m)) = elim m [ ]
not_named (inr m) = elim m [ ]

-- The filter names die-1 alone.
unnamed : IsUnnamed forgetful sample_manager [] (pos 0) (pos 0)
unnamed n cfg =
    let same : node_config ("die-1" ∷ []) [] ≡ n = cc in
    (
      "die-0",
      inr refl,
      subst {A = NodeConfig} (λ z. ¬ Names z.filter_devices "die-0" (pos 0)) same not_named,
    )

cleanup_idle_vnpus-left_example :
    infos_of (cleanup_idle_vnpus forgetful sample_manager []).1 (pos 0) ≡ ok (v_dev 101 1 ∷ [])
unfolding infos_of listed
cleanup_idle_vnpus-left_example =
    cleanup_idle_vnpus-left forgetful sample_manager lawful [] (pos 0 ∷ pos 1 ∷ []) refl distinct
      (pos 0) (pos 0) (pos 0) (v_dev 100 0 ∷ v_dev 101 1 ∷ v_dev 102 0 ∷ []) (Memᴰ.head refl) refl
      unnamed refl
