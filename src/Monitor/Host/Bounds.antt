-- ===== src/Monitor/Host/Bounds.antt =====
-- internal/monitor/dsmi.go: the memory that a device reports as used.
use ascend_device_plugin.Base.{
  ℤ, ◌+◌, ◌^◌, ◌≤◌, ◌<◌, List, [], ◌∷◌, ◌≡◌, ◌↔◌, refl, subst, ◌++◌, mem-singleton, inl, inr, none,
  Memᴰ, arith, ok, err, Error, Result-cases, Collects, Collects-nil, Collects-cons,
}
use ascend_device_plugin.Monitor.Host.{
  DeviceStat, MemoryInfo, Dcmi, memory_of, device_stat, stats_of, init_manager,
  collect_host_device_stats,
}

module _ (dcmi : Dcmi) where
  abbrev pub IsStatOf : ℤ → DeviceStat → Type 0
  IsStatOf logic_id stat =
      (card : ℤ) × (device : ℤ) × (dcmi.card_and_device logic_id ≡ ok (card, device))
      × (stat ≡ device_stat dcmi logic_id card device)

  stats_of-Collects : (ids : List ℤ) → Collects IsStatOf ids (stats_of dcmi ids)
  unfolding stats_of
  stats_of-Collects [] = Collects-nil _
  stats_of-Collects (logic_id ∷ ids) = elim (Result-cases (dcmi.card_and_device logic_id)) [
    | inl ((card, device), known) ↦
        subst (Collects IsStatOf (logic_id ∷ ids))
          {x = device_stat dcmi logic_id card device ∷ stats_of dcmi ids}
          (rw (stats_of, known) refl)
          (Collects-cons _ (one logic_id card device known) (stats_of-Collects ids))
    | inr (e, unknown) ↦
        subst (Collects IsStatOf (logic_id ∷ ids)) {x = [] ++ stats_of dcmi ids}
          (rw (stats_of, unknown) refl)
          (Collects-cons _ (gone logic_id e unknown) (stats_of-Collects ids))
  ]
    where
      one :
          (logic_id card device : ℤ)
          → dcmi.card_and_device logic_id ≡ ok (card, device)
          → (stat : DeviceStat)
          → Memᴰ stat (device_stat dcmi logic_id card device ∷ []) ↔ IsStatOf logic_id stat
      one logic_id card device known stat = (
        λ m. (card, device, known, mem-singleton m),
        λ (card', device', known', e). Memᴰ.head (same card' device' known' e),
      )
        where
          same :
              (card' device' : ℤ)
              → dcmi.card_and_device logic_id ≡ ok (card', device')
              → stat ≡ device_stat dcmi logic_id card' device'
              → stat ≡ device_stat dcmi logic_id card device
          same card' device' known' e = ground arith

      gone :
          (logic_id : ℤ) (e : Error)
          → dcmi.card_and_device logic_id ≡ err e
          → (stat : DeviceStat) → Memᴰ stat [] ↔ IsStatOf logic_id stat
      gone logic_id e unknown stat = (λ m. elim m [ ], λ (card, device, known, _). ground arith)

  -- Where the library starts and lists the devices: the stats are those of the listed devices whose card
  -- is known, with what the library says of each.
  pub collect_host_device_stats-exact :
      (ids : List ℤ)
      → init_manager dcmi ≡ none
      → dcmi.logic_ids ≡ ok ids
      → (stats : List DeviceStat) × (collect_host_device_stats dcmi ≡ ok stats)
        × Collects IsStatOf ids stats
  unfolding collect_host_device_stats
  collect_host_device_stats-exact ids started listed =
      (stats_of dcmi ids, ground arith, stats_of-Collects ids)

  -- Of a device whose memory the library knows, with sizes of 64 bits: the used memory is below 2^64, it
  -- is at most the total exactly if no more is available than there is, and it then makes up the total with
  -- what is available.
  pub memory_of-used :
      (card device : ℤ) (info : MemoryInfo)
      → dcmi.memory_info card device ≡ ok info
      → info.memory_size < 2 ^ 64
      → info.memory_available < 2 ^ 64
      → let (total, used) = memory_of dcmi card device in
        (total ≡ info.memory_size)
        × (used < 2 ^ 64)
        × ((used ≤ total) ↔ (info.memory_available ≤ total))
        × (info.memory_available ≤ total → used + info.memory_available ≡ total)
  unfolding memory_of
  memory_of-used card device info known size available =
      rw (memory_of, known)
        (refl, omega arith, (λ h. omega arith, λ h. omega arith), λ h. omega arith)
