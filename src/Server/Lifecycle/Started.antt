-- ===== src/Server/Lifecycle/Started.antt =====
-- internal/server/server.go, Start: what it leaves running, step by step.
use ascend_device_plugin.Base.{
  false, String, ◌≡◌, refl, sym, subst, ap, ◌⊎◌, inl, inr, List, [], ◌∷◌, ◌++◌, some, Result, ok,
  err, Error, Result-cases, if◌then◌else◌, wrap, arith,
}
use ascend_device_plugin.Manager.Driver.{DeviceInterface}
use ascend_device_plugin.Manager.State.{AscendManager, resource_name}
use ascend_device_plugin.Manager.Devices.{update_device}
use ascend_device_plugin.Server.Plugin.{manager_of}
use ascend_device_plugin.Server.Publish.{device_fingerprint}
use ascend_device_plugin.Server.DeviceShare.{enable_node_device_share}
use ascend_device_plugin.Server.Lifecycle.{
  Life, Done, Outside, serving, watching, checking, unclosed, created, Effect, socket_removed,
  listened, registered, commands_run, started_goroutine, start_goroutines, register_request,
  register_kubelet, serve, start_registered, start_served, start_shared, start_updated,
  published_first, start,
}

module _ {W : Type 0} (out : Outside) where
  -- The socket is served and dialed, and kubelet takes the registration.
  abbrev pub IsServed : Life W → Type 0
  IsServed s =
      (out.listen s.watched.server.socket ≡ ok tt)
      × (out.dial s.watched.server.socket ≡ ok tt)
      × (out.dial out.kubelet_socket ≡ ok tt)
      × (out.register (register_request out s) ≡ ok tt)

  -- From the step that serves the socket on: all goroutines run if everything succeeds, and otherwise at
  -- most the one that serves.
  abbrev pub Finishes : Life W → List Effect → Done W → Type 0
  Finishes s before done =
      (IsServed s
        × (done ≡ (
          ok tt,
          start_goroutines (started_goroutine serving s),
          before ++ (socket_removed ∷ listened ∷ registered (register_request out s) ∷ []),
        )))
      ⊎ ((e : Error) × (t : Life W) × (fx : List Effect) × (done ≡ (err e, t, fx))
          × ((t ≡ s) ⊎ (t ≡ started_goroutine serving s)))

  register_kubelet-cases :
      (s : Life W)
      → ((out.dial out.kubelet_socket ≡ ok tt)
          × (out.register (register_request out s) ≡ ok tt)
          × (register_kubelet out s ≡ (ok tt, registered (register_request out s) ∷ [])))
        ⊎ ((e : Error) × (fx : List Effect) × (register_kubelet out s ≡ (err e, fx)))
  unfolding register_kubelet
  register_kubelet-cases s = elim (Result-cases (out.dial out.kubelet_socket)) [
    | inr (e, k) ↦ inr (e, [], rw (register_kubelet, k) refl)
    | inl (t, k) ↦ elim (Result-cases (out.register (register_request out s))) [
      | inr (e, r) ↦
          inr (e, registered (register_request out s) ∷ [], rw (register_kubelet, k) (rw r refl))
      | inl (t, r) ↦ inl (k, r, rw (register_kubelet, k) (rw r refl))
    ]
  ]

  serve-cases :
      (s : Life W)
      → ((out.listen s.watched.server.socket ≡ ok tt)
          × (out.dial s.watched.server.socket ≡ ok tt)
          × (serve out s ≡ (ok tt, started_goroutine serving s, socket_removed ∷ listened ∷ [])))
        ⊎ ((e : Error) × (t : Life W) × (fx : List Effect) × (serve out s ≡ (err e, t, fx))
            × ((t ≡ s) ⊎ (t ≡ started_goroutine serving s)))
  unfolding serve
  serve-cases s = elim (Result-cases (out.listen s.watched.server.socket)) [
    | inr (e, p) ↦ inr (e, s, socket_removed ∷ [], rw (serve, p) refl, inl refl)
    | inl (t, p) ↦ elim (Result-cases (out.dial s.watched.server.socket)) [
      | inr (e, q) ↦ inr (
        wrap "failed to dial device plugin socket" e,
        started_goroutine serving s,
        socket_removed ∷ listened ∷ [],
        rw (serve, p) (rw q refl),
        inr refl,
      )
      | inl (t, q) ↦ inl (p, q, rw (serve, p) (rw q refl))
    ]
  ]

  start_served-Finishes : (s : Life W) → Finishes s [] (start_served out (serve out s))
  unfolding start_served start_registered register_request
  start_served-Finishes s = elim (serve-cases s) [
    | inr (e, t, fx, p, left) ↦ inr (e, t, fx, rw (start_served, p) refl, left)
    | inl (p, q, ran) ↦ elim (register_kubelet-cases (started_goroutine serving s)) [
      | inr (e, fx, k) ↦ inr (
        e,
        started_goroutine serving s,
        socket_removed ∷ listened ∷ fx,
        rw (start_served, ran) (rw k refl),
        inr refl,
      )
      | inl (k, r, done) ↦ inl ((p, q, k, r), rw (start_served, ran) (rw done refl))
    ]
  ]

  start_shared-Finishes :
      (s : Life W) (commands : List (List String))
      → Finishes s (commands_run commands) (start_shared out s (ok tt, commands))
  unfolding start_shared
  start_shared-Finishes s commands = elim (start_served-Finishes s) [
    | inl (served, e) ↦ inl (served, rw (start_shared, e) refl)
    | inr (e, t, fx, p, left) ↦
        inr (e, t, commands_run commands ++ fx, rw (start_shared, p) refl, left)
  ]

  -- The state after the refresh of the devices, which the first ListAndWatch response publishes.
  abbrev pub refreshed : Life W → AscendManager → Life W
  refreshed s am = published_first out (record s {
    watched = record s.watched { manager = am };
    stop_ch = some unclosed;
    grpc_server = some created;
  })

  start-refreshed :
      (d : DeviceInterface W) (s : Life W) (am : AscendManager)
      → out.prepare_host_resources ≡ ok tt
      → update_device d s.hardware s.watched.manager ≡ (ok tt, am)
      → start out d s
        ≡ start_shared out
            (refreshed s am)
            (enable_node_device_share out.order out.smi (manager_of am))
  unfolding start start_updated
  start-refreshed d s am p q = simp (start, p, q, start_updated)

  start-not_refreshed :
      (d : DeviceInterface W) (s : Life W) (e : Error) (am : AscendManager)
      → out.prepare_host_resources ≡ ok tt
      → update_device d s.hardware s.watched.manager ≡ (err e, am)
      → (t : Life W) × (start out d s ≡ (err e, t, [])) × (t.wg ≡ s.wg)
  unfolding start start_updated
  start-not_refreshed d s e am p q = (
    record s {
      watched = record s.watched { manager = am };
      stop_ch = some unclosed;
      grpc_server = some created;
    },
    simp (start, p, q, start_updated),
    refl,
  )

  -- Everything that Start does succeeds: the host's resources, the refresh of the devices to `am`, npu-smi
  -- with these commands, and then the socket and kubelet.
  abbrev pub Succeeds : DeviceInterface W → Life W → AscendManager → List (List String) → Type 0
  Succeeds d s am commands =
      (out.prepare_host_resources ≡ ok tt)
      × (update_device d s.hardware s.watched.manager ≡ (ok tt, am))
      × (enable_node_device_share out.order out.smi (manager_of am) ≡ (ok tt, commands))
      × IsServed (refreshed s am)

  -- The server, the watcher and, where it is enabled, the check for idle vNPUs run behind an open stop
  -- channel; the manager is `am`, and its devices' fingerprint is recorded; nothing else is changed. What
  -- was registered is the manager's resource, at the base name of the server's socket.
  abbrev pub IsRunning : Life W → AscendManager → Life W → Type 0
  IsRunning s am t =
      (t ≡ record {
        watched = record {
          server = record s.watched.server {
            last_published_devices = device_fingerprint (manager_of am);
          };
          manager = am;
          told = s.watched.told;
        };
        hardware = s.hardware;
        stop_ch = some unclosed;
        grpc_server = some created;
        wg =
            if s.watched.server.enable_periodic_idle_vnpu_cleanup
            then watching ∷ checking ∷ serving ∷ s.wg
            else watching ∷ serving ∷ s.wg;
      })
      × (register_request out (refreshed s am) ≡ record {
        version = out.version;
        endpoint = out.path_base s.watched.server.socket;
        resource_name = am.config.resource_name;
        get_preferred_allocation_available = false;
      })

  start_goroutines-adds :
      (s : Life W)
      → start_goroutines s ≡ record s {
        wg =
            if s.watched.server.enable_periodic_idle_vnpu_cleanup
            then watching ∷ checking ∷ s.wg
            else watching ∷ s.wg;
      }
  unfolding start_goroutines
  start_goroutines-adds s = ground arith

  start_goroutines-IsRunning :
      (s : Life W) (am : AscendManager)
      → IsRunning s am (start_goroutines (started_goroutine serving (refreshed s am)))
  unfolding register_request manager_of resource_name
  start_goroutines-IsRunning s am =
      (start_goroutines-adds (started_goroutine serving (refreshed s am)), refl)

  abbrev pub Starts : DeviceInterface W → Life W → Done W → Type 0
  Starts d s done =
      ((am : AscendManager) × (commands : List (List String)) × Succeeds d s am commands
        × IsRunning s am (start_goroutines (started_goroutine serving (refreshed s am)))
        × (done ≡ (
          ok tt,
          start_goroutines (started_goroutine serving (refreshed s am)),
          commands_run commands
              ++ (socket_removed
                  ∷ listened
                  ∷ registered (register_request out (refreshed s am))
                  ∷ []),
        )))
      ⊎ ((e : Error) × (t : Life W) × (fx : List Effect) × (done ≡ (err e, t, fx))
          × ((t.wg ≡ s.wg) ⊎ (t.wg ≡ serving ∷ s.wg)))

  -- Start succeeds exactly where each of its steps does. It then has run npu-smi's commands, made the
  -- socket anew and registered with kubelet, in this order; the goroutines run that serve, watch and, where
  -- it is enabled, check for idle vNPUs, behind an open stop channel; and the recorded fingerprint is that
  -- of the refreshed devices. Otherwise it answers an error, and no goroutine is started but the one that
  -- serves.
  pub start-Starts : (d : DeviceInterface W) (s : Life W) → Starts d s (start out d s)
  unfolding start start_shared
  start-Starts d s = elim (Result-cases out.prepare_host_resources) [
    | inr (e, p) ↦ inr (e, s, [], ground arith, inl refl)
    | inl (t, p) ↦ go p (update_device d s.hardware s.watched.manager) refl
  ]
    where
      shared :
          (am : AscendManager)
          → out.prepare_host_resources ≡ ok tt
          → update_device d s.hardware s.watched.manager ≡ (ok tt, am)
          → (r : Result (Unit {0}) × List (List String))
          → enable_node_device_share out.order out.smi (manager_of am) ≡ r
          → Starts d s (start_shared out (refreshed s am) r)
      shared am p q (err e, commands) k =
          inr (e, refreshed s am, commands_run commands, refl, inl refl)
      shared am p q (ok t, commands) k = elim (start_shared-Finishes (refreshed s am) commands) [
        | inl (served, done) ↦
            inl (am, commands, (p, q, k, served), start_goroutines-IsRunning s am, done)
        | inr (e, t, fx, done, left) ↦ inr (
          e,
          t,
          fx,
          done,
          elim left [ inl same ↦ inl (ap (λ x. x.wg) same) | inr one ↦ inr (ap (λ x. x.wg) one) ],
        )
      ]

      go :
          out.prepare_host_resources ≡ ok tt
          → (u : Result (Unit {0}) × AscendManager)
          → update_device d s.hardware s.watched.manager ≡ u
          → Starts d s (start out d s)
      go p (err e, am) q =
          let (t, done, left) = start-not_refreshed d s e am p q in inr (e, t, [], done, inl left)
      go p (ok t, am) q =
          subst (Starts d s) (sym (start-refreshed d s am p q))
            (shared am p q (enable_node_device_share out.order out.smi (manager_of am)) refl)
