-- ===== src/Monitor/Collector/Labels.antt =====
-- internal/monitor/collector.go: the metrics against what Describe announces.
use ascend_device_plugin.Base.{
  ℕ, suc, String, List, [], ◌∷◌, ◌++◌, ◌≡◌, refl, subst, sym, inl, inr, Memᴰ, mem_split, arith,
  Result, ok, err, Outcome, returns, panics, and_then, length,
}
use ascend_device_plugin.Base.Dict.{Dict}
use ascend_device_plugin.Monitor.Containers.{ContainerEntry, Listing, list_containers}
use ascend_device_plugin.Monitor.Host.{DeviceStat, Dcmi, collect_host_device_stats}
use ascend_device_plugin.Monitor.Collector.{
  Metric, Floats, describe, device_metrics, uuid_metrics, entry_metrics, utilizations,
  collect_host_metrics, collect_pod_metrics, host_devices, collect,
}

module _ {ℓ} {F : Type ℓ} (floats : Floats F) where
  -- What MustNewConstMetric and the registry ask for.
  abbrev pub IsDescribed : Metric F → Type 0
  IsDescribed m = Memᴰ m.desc describe × (length m.labels ≡ length m.desc.variable_labels)

  abbrev AreDescribed : List (Metric F) → Type ℓ
  AreDescribed ms = (m : Metric F) → Memᴰ m ms → IsDescribed m

  none_described : AreDescribed []
  none_described m k = elim k [ ]

  one_more :
      (m : Metric F) (ms : List (Metric F))
      → IsDescribed m
      → AreDescribed ms
      → AreDescribed (m ∷ ms)
  one_more m ms now later n (Memᴰ.head e) = subst IsDescribed (sym e) now
  one_more m ms now later n (Memᴰ.tail k) = later n k

  both : (ms ns : List (Metric F)) → AreDescribed ms → AreDescribed ns → AreDescribed (ms ++ ns)
  both ms ns first second m k = elim (mem_split ms ns k) [
    | inl here ↦ first m here
    | inr there ↦ second m there
  ]

  host-described :
      (devices : List DeviceStat) (sums : Dict ℕ)
      → AreDescribed (collect_host_metrics floats devices sums)
  unfolding collect_host_metrics
  host-described [] sums = none_described
  host-described (d ∷ devices) sums =
      one_more _ _ (Memᴰ.head refl, refl)
        (one_more _ _ (Memᴰ.tail (Memᴰ.head refl), refl) (host-described devices sums))

  device-described :
      (util : Dict F) (e : ContainerEntry) (i : ℕ) (uuid : String)
      → AreDescribed (device_metrics floats util e i uuid)
  unfolding device_metrics
  device-described util e i uuid =
      one_more _ _ (from_2 (Memᴰ.head refl), refl)
        (one_more _ _ (from_2 (Memᴰ.tail (Memᴰ.head refl)), refl)
          (one_more _ _ (from_2 (Memᴰ.tail (Memᴰ.tail (Memᴰ.head refl))), refl)
            (one_more _ _ (from_5 (Memᴰ.head refl), refl)
              (one_more _ _ (from_5 (Memᴰ.tail (Memᴰ.head refl)), refl)
                (one_more _ _ (from_5 (Memᴰ.tail (Memᴰ.tail (Memᴰ.head refl))), refl)
                  none_described)))))
    where
      from_2 : {A : Type 0} {x a b : A} {xs : List A} → Memᴰ x xs → Memᴰ x (a ∷ b ∷ xs)
      from_2 k = Memᴰ.tail (Memᴰ.tail k)

      from_5 :
          {A : Type 0} {x a b c d e : A} {xs : List A} → Memᴰ x xs → Memᴰ x (a ∷ b ∷ c ∷ d ∷ e ∷ xs)
      from_5 k = from_2 (from_2 (Memᴰ.tail k))

  uuids-described :
      (util : Dict F) (e : ContainerEntry) (i : ℕ) (uuids : List String)
      → AreDescribed (uuid_metrics floats util e i uuids)
  unfolding uuid_metrics
  uuids-described util e i [] = none_described
  uuids-described util e i (uuid ∷ uuids) =
      both (device_metrics floats util e i uuid) _ (device-described util e i uuid)
        (uuids-described util e (suc i) uuids)

  entries-described :
      (util : Dict F) (entries : List ContainerEntry)
      → AreDescribed (entry_metrics floats util entries)
  unfolding entry_metrics
  entries-described util [] = none_described
  entries-described util (e ∷ entries) =
      both (uuid_metrics floats util e 0 e.device_uuids) _ (uuids-described util e 0 e.device_uuids)
        (entries-described util entries)

  pod-described :
      (listed : Result (List ContainerEntry)) (devices : List DeviceStat)
      → AreDescribed (collect_pod_metrics floats listed devices).0
  unfolding collect_pod_metrics
  pod-described (err e) devices = none_described
  pod-described (ok entries) devices = entries-described (utilizations floats devices []) entries

  -- Every metric of a scrape is one that Describe announces, with as many labels as its description has
  -- label names.
  pub collect-IsDescribed :
      (dcmi : Dcmi) (l : Listing) (metrics : List (Metric F)) (removed : List String)
      → collect floats dcmi l ≡ returns (metrics, removed)
      → (m : Metric F) → Memᴰ m metrics
      → Memᴰ m.desc describe × (length m.labels ≡ length m.desc.variable_labels)
  unfolding collect
  collect-IsDescribed dcmi l metrics removed sent = go (list_containers l) sent
    where
      go :
          (r : Outcome (Result (List ContainerEntry) × List String))
          → and_then {B = List (Metric F) × List String} r (λ (listed, gone). returns (
            (collect_pod_metrics floats listed (host_devices (collect_host_device_stats dcmi))).0
                ++ collect_host_metrics floats
                    (host_devices (collect_host_device_stats dcmi))
                    (collect_pod_metrics floats listed
                      (host_devices (collect_host_device_stats dcmi))).1,
            gone,
          ))
            ≡ returns (metrics, removed)
          → AreDescribed metrics
      go panics e = cc
      go (returns (listed, gone)) e =
          let devices = host_devices (collect_host_device_stats dcmi) in
          let pods = collect_pod_metrics floats listed devices in
          let same : pods.0 ++ collect_host_metrics floats devices pods.1 ≡ metrics =
            ground arith in
          subst AreDescribed same
            (both pods.0 _ (pod-described listed devices) (host-described devices pods.1))
