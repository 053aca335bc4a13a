-- ===== src/Server/Watch/Rounds.antt =====
-- internal/server: Start, and then any number of rounds of watchAndRegister.
use ascend_device_plugin.Base.{
  ◌≡◌, refl, sym, subst, ap, ◌∙◌, inl, inr, List, [], Outcome, returns, panics, and_then, Result,
  ok, err, arith, Bool-cases,
}
use ascend_device_plugin.Manager.Driver.{DeviceInterface}
use ascend_device_plugin.Manager.State.{AscendManager}
use ascend_device_plugin.Manager.Devices.{update_device, get_devices}
use ascend_device_plugin.Server.Plugin.{manager_of}
use ascend_device_plugin.Server.Publish.{fingerprint, device_fingerprint}
use ascend_device_plugin.Server.Register.{Cluster, NodeEffect, register_hami}
use ascend_device_plugin.Server.Watch.{
  Watching, Sent, Next, again, Ticked, wait, connect, register_then_wait, publish_then_register,
  after_update, tick,
}
use ascend_device_plugin.Server.Watch.Synced.{
  stops_there, goes_on, IsSynced, publish_change-Published,
}
use ascend_device_plugin.Server.Lifecycle.{
  Life, Outside, Effect, start, start_goroutines, started_goroutine, serving, watching, checking,
}
use ascend_device_plugin.Server.Lifecycle.Started.{refreshed, Starts, start-Starts}

module _ {W : Type 0} (d : DeviceInterface W) where
  -- The states after rounds that return, each with its own hardware, cluster and receiver.
  pub data Rounds (s : Watching) : Watching → Type 0 where
    before : Rounds s s
    round :
        {t : Watching} (u : Watching) (w : W) (cluster : Cluster) (sent : Sent) (next : Next)
        (fx : List NodeEffect)
        → Rounds s t
        → tick d w cluster sent t ≡ returns (next, fx, u)
        → Rounds s u

  pub inside : {a b : Ticked} → Path (Outcome Ticked) (returns a) (returns b) → a ≡ b
  inside {a} h = ap (λ o. elim o [ returns x ↦ x | panics ↦ a ]) h

  pub register_then_wait-same :
      (cluster : Cluster) (s u : Watching) (next : Next) (fx : List NodeEffect)
      → register_then_wait cluster s ≡ returns (next, fx, u)
      → s ≡ u
  unfolding register_then_wait
  register_then_wait-same cluster s u next fx h =
      go (register_hami s.server (manager_of s.manager) cluster) h
    where
      go :
          (r : Outcome (Result (Unit {0}) × List NodeEffect))
          → and_then {B = Ticked} r (λ (r, fx). returns (wait r, fx, s)) ≡ returns (next, fx, u)
          → s ≡ u
      go panics e = cc
      go (returns (r, fx')) e = ground arith

  publish_then_register-IsSynced :
      (cluster : Cluster) (sent : Sent) (s u : Watching) (next : Next) (fx : List NodeEffect)
      → IsSynced s
      → publish_then_register cluster sent s ≡ returns (next, fx, u)
      → IsSynced u
  unfolding publish_then_register
  publish_then_register-IsSynced cluster sent s u next fx synced h =
      elim (publish_change-Published sent s synced) [
        | inl (stopped, _) ↦
            let same : s ≡ u =
              ap (λ x. x.2) (inside (sym (stops_there cluster sent s stopped) ∙ h)) in
            subst IsSynced same synced
        | inr (t, e, _, synced', _) ↦
            subst IsSynced
              (register_then_wait-same cluster t u next fx (sym (goes_on cluster sent s t e) ∙ h))
              synced'
      ]

  tick-IsSynced :
      (w : W) (cluster : Cluster) (sent : Sent) (s u : Watching) (next : Next)
      (fx : List NodeEffect)
      → IsSynced s
      → tick d w cluster sent s ≡ returns (next, fx, u)
      → IsSynced u
  unfolding tick after_update
  tick-IsSynced w cluster sent s u next fx synced h = go (update_device d w s.manager) refl
    where
      go : (r : Result (Unit {0}) × AscendManager) → update_device d w s.manager ≡ r → IsSynced u
      go (err e, am) p =
          let left : Path Ticked (again 5, [], record s { manager = am }) (next, fx, u) =
            inside (ap (after_update d w cluster sent s) (sym p) ∙ h) in
          subst IsSynced (ap (λ x. x.2) left) synced
      go (ok t, am) p =
          publish_then_register-IsSynced cluster sent (record s { manager = am }) u next fx synced
            (ap (after_update d w cluster sent s) (sym p) ∙ h)

  Rounds-IsSynced : {s u : Watching} → IsSynced s → Rounds s u → IsSynced u
  Rounds-IsSynced synced before = synced
  Rounds-IsSynced synced (round u w cluster sent next fx rounds h) =
      tick-IsSynced w cluster sent _ u next fx (Rounds-IsSynced synced rounds) h

  start_goroutines-watched : (s : Life W) → (start_goroutines s).watched ≡ s.watched
  unfolding start_goroutines
  start_goroutines-watched s =
      elim (Bool-cases s.watched.server.enable_periodic_idle_vnpu_cleanup) [
        | inl on ↦
            ap (λ x. x.watched) {x = start_goroutines s}
              {y = started_goroutine watching (started_goroutine checking s)}
              (simp (start_goroutines, on))
        | inr off ↦
            ap (λ x. x.watched) {x = start_goroutines s} {y = started_goroutine watching s}
              (simp (start_goroutines, off))
      ]

  pub start-IsSynced :
      (out : Outside) (s t : Life W) (fx : List Effect)
      → start out d s ≡ (ok tt, t, fx)
      → IsSynced (connect t.watched)
  unfolding connect start_goroutines device_fingerprint manager_of get_devices
  start-IsSynced out s t fx started = synced (start-Starts out d s)
    where
      synced : Starts out d s (start out d s) → IsSynced (connect t.watched)
      synced (inl (am, commands, steps, _, done)) =
          let reached : start_goroutines (started_goroutine serving (refreshed out s am)) ≡ t =
            ap (λ x. x.1) (sym done ∙ started) in
          let same : (refreshed out s am).watched ≡ t.watched =
            sym (start_goroutines-watched (started_goroutine serving (refreshed out s am)))
            ∙ ap (λ x. x.watched) reached in
          subst (λ x. IsSynced (connect x)) same refl
      synced (inr (e, x, gx, done, left)) =
          let never : Path (Result (Unit {0})) (ok tt) (err e) =
            ap (λ x. x.0) (sym started ∙ done) in
          absurd (cc)

  -- After a Start that succeeds and kubelet's connection, before the devices are refreshed again, and any
  -- number of rounds, whatever the driver, the cluster and the receiver did: the recorded fingerprint is
  -- that of the devices that kubelet was told of last.
  pub start-Rounds :
      (out : Outside) (s t : Life W) (fx : List Effect) (u : Watching)
      → start out d s ≡ (ok tt, t, fx)
      → Rounds (connect t.watched) u
      → u.server.last_published_devices ≡ fingerprint u.told
  start-Rounds out s t fx u started rounds =
      Rounds-IsSynced (start-IsSynced out s t fx started) rounds
