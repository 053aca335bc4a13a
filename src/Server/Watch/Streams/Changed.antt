-- ===== src/Server/Watch/Streams/Changed.antt =====
-- internal/server: what a round of watchAndRegister does to the stream that it sends to, and that the
-- recorded fingerprint is always that of some stream.
use ascend_device_plugin.Base.{
  ℕ, zero, suc, ◌==◌, ◌≡◌, ◌≢◌, ◌⊎◌, refl, sym, subst, ap, ◌∙◌, inl, inr, List, [], ◌∷◌, Option,
  none, some, Memᴰ, returns, Result, ok, err, arith, Bool-cases, eq_iff, get_elem?, set, mem_left,
}
use ascend_device_plugin.Manager.Driver.{DeviceInterface}
use ascend_device_plugin.Manager.State.{AscendManager, Device}
use ascend_device_plugin.Manager.Devices.{update_device, get_devices}
use ascend_device_plugin.Server.Plugin.{manager_of}
use ascend_device_plugin.Server.Publish.{fingerprint, device_fingerprint}
use ascend_device_plugin.Server.Register.{Cluster, NodeEffect}
use ascend_device_plugin.Server.Watch.{
  Watching, connect, Sent, accepted, stopped, timed_out, Next, again, Ticked, offer, publish_change,
  publish_then_register, after_update, tick,
}
use ascend_device_plugin.Server.Watch.Synced.{stops_there, goes_on}
use ascend_device_plugin.Server.Lifecycle.{Life, Outside, Effect, start}
use ascend_device_plugin.Server.Watch.Rounds.{start-IsSynced, inside, register_then_wait-same}
use ascend_device_plugin.Server.Watch.Streams.{
  Handlers, listen, seen, with_streams, Step, listens, taken, untaken, Run, here, later,
}

-- Either nothing is sent, or the update is: then the devices had another fingerprint than the recorded one.
abbrev pub Kept : Watching → Watching → Type 0
Kept s u = (u.told ≡ s.told) × (u.server ≡ s.server)

abbrev pub Sends : Sent → Watching → Watching → Type 0
Sends sent s u =
    (sent ≡ accepted)
    × (u.told ≡ u.manager.devs)
    × (u.server.last_published_devices ≡ fingerprint u.manager.devs)
    × (fingerprint u.manager.devs ≢ s.server.last_published_devices)

abbrev pub Changes : Sent → Watching → Watching → Type 0
Changes sent s u = Kept s u ⊎ Sends sent s u

abbrev Offered : Sent → Watching → Option Watching → Type 0
Offered sent s r =
    (r ≡ none) ⊎ ((u : Watching) × (r ≡ some u) × (u.manager ≡ s.manager) × Changes sent s u)

offer-Changes :
    (sent : Sent) (s : Watching)
    → fingerprint s.manager.devs ≢ s.server.last_published_devices
    → Offered sent s (offer sent (fingerprint s.manager.devs) s)
unfolding offer get_devices
offer-Changes accepted s h = inr (_, refl, refl, inr (refl, refl, refl, h))
offer-Changes stopped s h = inl refl
offer-Changes timed_out s h = inr (s, refl, refl, inl (refl, refl))

publish_change-Changes : (sent : Sent) (s : Watching) → Offered sent s (publish_change sent s)
unfolding publish_change device_fingerprint manager_of get_devices
publish_change-Changes sent s =
    elim (Bool-cases (fingerprint s.manager.devs == s.server.last_published_devices)) [
      | inl same ↦ inr (s, rw (same, publish_change) refl, refl, inl (refl, refl))
      | inr changed ↦
          rw (changed, publish_change)
            (offer-Changes sent s (λ e.
              ground (arith, eq_iff (fingerprint s.manager.devs) s.server.last_published_devices)))
    ]

module _ {W : Type 0} (d : DeviceInterface W) (w : W) (cluster : Cluster) (sent : Sent) where
  published-Changes :
      (s u : Watching) (next : Next) (fx : List NodeEffect)
      → publish_then_register cluster sent s ≡ returns (next, fx, u)
      → Changes sent s u
  published-Changes s u next fx h = elim (publish_change-Changes sent s) [
    | inl none_left ↦
        let same : s ≡ u =
          ap (λ x. x.2) (inside d (sym (stops_there cluster sent s none_left) ∙ h)) in
        subst (Changes sent s) same (inl (refl, refl))
    | inr (t, e, _, changes) ↦
        subst (Changes sent s)
          (register_then_wait-same d cluster t u next fx (sym (goes_on cluster sent s t e) ∙ h))
          changes
  ]

  pub tick-Changes :
      (s u : Watching) (next : Next) (fx : List NodeEffect)
      → tick d w cluster sent s ≡ returns (next, fx, u)
      → Changes sent s u
  unfolding tick after_update
  tick-Changes s u next fx h = go (update_device d w s.manager) refl
    where
      go :
          (r : Result (Unit {0}) × AscendManager)
          → update_device d w s.manager ≡ r
          → Changes sent s u
      go (err e, am) p =
          let left : Path Ticked (again 5, [], record s { manager = am }) (next, fx, u) =
            inside d (ap (after_update d w cluster sent s) (sym p) ∙ h) in
          subst (Changes sent s) (ap (λ x. x.2) left) (inl (refl, refl))
      go (ok t, am) p =
          published-Changes (record s { manager = am }) u next fx
            (ap (after_update d w cluster sent s) (sym p) ∙ h)

-- Some handler sent the devices of the recorded fingerprint last.
abbrev pub IsRecorded : Handlers → Type 0
IsRecorded s =
    (told : List Device) × Memᴰ told s.streams
    × (s.server.last_published_devices ≡ fingerprint told)

module _ {ℓ} {A : Type ℓ} where
  pub set-same : (xs : List A) (i : ℕ) (x : A) → get_elem? xs i ≡ some x → set xs i x ≡ xs
  set-same [] i x h = refl
  set-same (y ∷ xs) zero x h = ground arith
  set-same (y ∷ xs) (suc i) x h = ap (λ l. y ∷ l) (set-same xs i x h)

  mem-set : (xs : List A) (i : ℕ) (x y : A) → get_elem? xs i ≡ some x → Memᴰ y (set xs i y)
  mem-set [] i x y h = absurd (cc)
  mem-set (z ∷ xs) zero x y h = Memᴰ.head refl
  mem-set (z ∷ xs) (suc i) x y h = Memᴰ.tail (mem-set xs i x y h)

module _ {W : Type 0} (d : DeviceInterface W) where
  pub Step-IsRecorded : {s t : Handlers} → Step d s t → IsRecorded s → IsRecorded t
  unfolding listen
  Step-IsRecorded {s} listens (told, m, e) = (told, mem_left s.streams _ m, e)
  Step-IsRecorded {s} (taken i told u w cluster next fx at ran) recorded =
      elim (tick-Changes d w cluster accepted (seen told s) u next fx ran) [
        | inl (same_told, same_server) ↦
            let (x, m, e) = recorded in
            let kept : set s.streams i u.told ≡ s.streams =
              ap (set s.streams i) same_told ∙ set-same s.streams i told at in
            (x, subst (Memᴰ x) (sym kept) m, ap (λ p. p.last_published_devices) same_server ∙ e)
        | inr (_, sent_devs, fp, _) ↦
            (u.told, mem-set s.streams i told u.told at, fp ∙ ap fingerprint (sym sent_devs))
      ]
  Step-IsRecorded {s} (untaken u w cluster next fx ran) (told, m, e) =
      elim (tick-Changes d w cluster timed_out (seen [] s) u next fx ran) [
        | inl (_, same_server) ↦ (told, m, ap (λ p. p.last_published_devices) same_server ∙ e)
        | inr (never, _, _, _) ↦ absurd (cc)
      ]

  Run-IsRecorded : {s t : Handlers} → IsRecorded s → Run d s t → IsRecorded t
  Run-IsRecorded recorded here = recorded
  Run-IsRecorded recorded (later run step) = Step-IsRecorded step (Run-IsRecorded recorded run)

  -- After a Start that succeeds and kubelet's first stream, before the devices are refreshed again: however
  -- many more streams are opened and whichever of them receives an update or none, the recorded
  -- fingerprint is that of the devices that some stream was sent last, though perhaps not the latest one.
  pub start-Run :
      (out : Outside) (s t : Life W) (fx : List Effect) (u : Handlers)
      → start out d s ≡ (ok tt, t, fx)
      → Run d (listen (with_streams t.watched [])) u
      → (told : List Device) × Memᴰ told u.streams
        × (u.server.last_published_devices ≡ fingerprint told)
  unfolding listen connect get_devices
  start-Run out s t fx u started run =
      Run-IsRecorded (t.watched.manager.devs, Memᴰ.head refl, start-IsSynced d out s t fx started)
        run
