-- ===== src/Server/Watch/Synced.antt =====
-- internal/server/register.go, watchAndRegister: what kubelet was told against the devices that are cached.
use ascend_device_plugin.Base.{
  ℕ, suc, ℤ, ◌==◌, ◌≡◌, ◌⊎◌, refl, inl, inr, List, [], ◌∷◌, Option, none, some, Outcome, returns,
  Result, err, Error, eq_iff, sym, ◌∙◌, Bool-cases,
}
use ascend_device_plugin.Manager.Driver.{DeviceInterface}
use ascend_device_plugin.Manager.State.{AscendManager, Device, v_device_count}
use ascend_device_plugin.Manager.Devices.{update_device, get_devices}
use ascend_device_plugin.Manager.Devices.Refresh.{update_device_lem}
use ascend_device_plugin.Server.Plugin.{Manager, PluginServer, manager_of}
use ascend_device_plugin.Server.Publish.{fingerprint, device_fingerprint}
use ascend_device_plugin.Server.Register.{
  Cluster, NodeEffect, DeviceInfo, device_info, device_infos, publish_infos, register_hami,
}
use ascend_device_plugin.Server.Watch.{
  Watching, wait, Sent, accepted, stopped, timed_out, Next, stops, again, Ticked, offer,
  publish_change, register_then_wait, publish_then_register, tick,
}

-- The recorded fingerprint is that of the devices that kubelet was told of.
abbrev pub IsSynced : Watching → Type 0
IsSynced s = s.server.last_published_devices ≡ fingerprint s.told

-- Kubelet knows the cached devices, up to what the fingerprint shows.
abbrev pub IsCurrent : Watching → Type 0
IsCurrent s = fingerprint s.told ≡ fingerprint s.manager.devs

abbrev pub Published : Sent → Watching → Option Watching → Type 0
Published sent s r =
    ((r ≡ none) × (sent ≡ stopped))
    ⊎ ((s' : Watching) × (r ≡ some s')
        × (s'.manager ≡ s.manager)
        × IsSynced s'
        × ((sent ≡ timed_out) ⊎ IsCurrent s'))

offer-Published :
    (sent : Sent) (s : Watching)
    → IsSynced s
    → Published sent s (offer sent (fingerprint s.manager.devs) s)
unfolding offer get_devices
offer-Published accepted s synced = inr (
  record s {
    server = record s.server { last_published_devices = fingerprint s.manager.devs };
    told = s.manager.devs;
  },
  refl,
  refl,
  refl,
  inr refl,
)
offer-Published stopped s synced = inl (refl, refl)
offer-Published timed_out s synced = inr (s, refl, refl, synced, inl refl)

pub publish_change-Published :
    (sent : Sent) (s : Watching) → IsSynced s → Published sent s (publish_change sent s)
unfolding publish_change device_fingerprint manager_of get_devices
publish_change-Published sent s synced =
    elim (Bool-cases (fingerprint s.manager.devs == s.server.last_published_devices)) [
      | inl same ↦ inr (
        s,
        rw (same, publish_change) refl,
        refl,
        synced,
        inr (
            sym synced
            ∙ sym ((eq_iff (fingerprint s.manager.devs) s.server.last_published_devices).0 same)),
      )
      | inr changed ↦ rw (changed, publish_change) (offer-Published sent s synced)
    ]

device_infos-returns :
    (mgr : Manager) (n : ℤ) (i : ℕ) (devs : List Device)
    → mgr.v_device_count ≡ returns n
    → (infos : List DeviceInfo) × (device_infos mgr i devs ≡ returns infos)
unfolding device_infos
device_infos-returns mgr n i [] h = ([], refl)
device_infos-returns mgr n i (dev ∷ devs) h =
    let (rest, e) = device_infos-returns mgr n (suc i) devs h in
    (device_info mgr n i dev ∷ rest, rw (h, device_infos) (rw e refl))

register_hami-returns :
    (ps : PluginServer) (mgr : Manager) (cluster : Cluster) (n : ℤ)
    → mgr.v_device_count ≡ returns n
    → (r : Result (Unit {0}) × List NodeEffect) × (register_hami ps mgr cluster ≡ returns r)
unfolding register_hami
register_hami-returns ps mgr cluster n h =
    let (infos, e) = device_infos-returns mgr n 0 mgr.devices h in
    (publish_infos ps mgr cluster infos, rw (e, register_hami) refl)

register_then_wait-returns :
    (cluster : Cluster) (s : Watching) (n : ℤ)
    → (manager_of s.manager).v_device_count ≡ returns n
    → (next : Next) × (fx : List NodeEffect) × (register_then_wait cluster s
        ≡ returns (next, fx, s))
unfolding register_then_wait
register_then_wait-returns cluster s n h =
    let (r, e) = register_hami-returns s.server (manager_of s.manager) cluster n h in
    (wait r.0, r.1, rw (e, register_then_wait) refl)

pub stops_there :
    (cluster : Cluster) (sent : Sent) (s : Watching)
    → publish_change sent s ≡ none
    → publish_then_register cluster sent s ≡ returns (stops, [], s)
unfolding publish_then_register
stops_there cluster sent s e = rw (e, publish_then_register) refl

pub goes_on :
    (cluster : Cluster) (sent : Sent) (s s' : Watching)
    → publish_change sent s ≡ some s'
    → publish_then_register cluster sent s ≡ register_then_wait cluster s'
unfolding publish_then_register
goes_on cluster sent s s' e = rw (e, publish_then_register) refl

count_kept :
    (am : AscendManager) (devs : List Device) (n : ℤ) (am' : AscendManager)
    → v_device_count am ≡ returns n
    → am' ≡ record am { devs = devs }
    → (manager_of am').v_device_count ≡ returns n
unfolding manager_of v_device_count
count_kept am devs n am' h e = rw e h

module _ {W : Type 0} (d : DeviceInterface W) (w : W) (cluster : Cluster) (sent : Sent) where
  abbrev pub Told : Watching → Outcome Ticked → Type 0
  Told s r =
      (next : Next) × (fx : List NodeEffect) × (s' : Watching) × (r ≡ returns (next, fx, s'))
      × IsSynced s'
      × (((e : Error) × (update_device d w s.manager ≡ (err e, s.manager)))
          ⊎ (sent ≡ stopped)
          ⊎ (sent ≡ timed_out)
          ⊎ IsCurrent s')

  -- A round of watchAndRegister ends where VDeviceCount returns, and keeps the fingerprint recorded that
  -- of the devices that kubelet was told of last. Afterwards kubelet knows the devices that are cached, up
  -- to their fingerprint, except where the refresh failed (then nothing changed), the plugin stops, or
  -- nobody took the update in time.
  pub tick-Told :
      (s : Watching) (n : ℤ)
      → IsSynced s
      → v_device_count s.manager ≡ returns n
      → Told s (tick d w cluster sent s)
  unfolding tick
  tick-Told s n synced h = elim (update_device_lem d w s.manager) [
    | inl (e, p) ↦ (again 5, [], s, rw (p, tick) refl, synced, inl (e, p))
    | inr (ids, devs, q, p, read) ↦
        let s₁ : Watching = record s { manager = record s.manager { devs = devs } } in
        elim (publish_change-Published sent s₁ synced) [
          | inl (none_left, e) ↦ (
            stops,
            [],
            s₁,
            rw (p, tick) (stops_there cluster sent s₁ none_left),
            synced,
            inr (inl e),
          )
          | inr (s', e, same, synced', current) ↦
              let (next, fx, ran) =
                register_then_wait-returns cluster s' n
                  (count_kept s.manager devs n s'.manager h same) in
              (
                next,
                fx,
                s',
                rw (p, tick) (goes_on cluster sent s₁ s' e ∙ ran),
                synced',
                inr (inr current),
              )
        ]
  ]
