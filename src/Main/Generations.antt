-- ===== src/Main/Generations.antt =====
-- cmd/main.go, start: one generation of goroutines at a time.
use ascend_device_plugin.Base.{
  ℕ, String, Bool, true, false, ◌≡◌, ◌≢◌, ◌⊎◌, List, [], ◌∷◌, some, Memᴰ, Result, ok, err, Error,
}
use ascend_device_plugin.Manager.Driver.{DeviceInterface}
use ascend_device_plugin.Server.Lifecycle.{
  Life, Outside, Goroutine, serving, watching, checking, unclosed, closed, created, halted,
}
use ascend_device_plugin.Main.{other_signal, Moment, Ended, waits, returned, handle}

-- The goroutines of one Start.
abbrev pub generation : Bool → List Goroutine
generation true = watching ∷ checking ∷ serving ∷ []
generation false = watching ∷ serving ∷ []

module _ {W : Type 0} where
  abbrev pub IsRunning : Life W → Type 0
  IsRunning s =
      (s.wg ≡ generation s.watched.server.enable_periodic_idle_vnpu_cleanup)
      × (s.stop_ch ≡ some unclosed)
      × (s.grpc_server ≡ some created)

  abbrev pub IsHalted : Life W → Type 0
  IsHalted s = (s.wg ≡ []) × (s.stop_ch ≡ some closed) × (s.grpc_server ≡ some halted)

  module _ (kubelet_socket : String) (d : DeviceInterface W) (outside : ℕ → Outside) where
    -- The loop waits with one generation running, and no signal to exit was met; or it has returned, after
    -- such a signal with everything halted, and else after a Start that failed, with no goroutine left but
    -- the one that serves.
    abbrev pub Ends : List (Moment W) → Ended × Life W → Type 0
    Ends moments done =
        ((t : Life W) × (done ≡ (waits, t))
          × IsRunning t
          × ((m : Moment W) → Memᴰ m moments → m.event ≢ other_signal))
        ⊎ ((t : Life W) × (done ≡ (returned (ok tt), t)) × IsHalted t)
        ⊎ ((e : Error) × (t : Life W) × (done ≡ (returned (err e), t))
            × ((t.wg ≡ []) ⊎ (t.wg ≡ serving ∷ [])))

    -- The loop after a start with this outcome.
    abbrev continuing : ℕ → List (Moment W) → Result (Unit {0}) × Life W → Ended × Life W
    continuing n moments b = elim b.0 [
      | err e ↦ (returned (err e), b.1)
      | ok t ↦ handle d outside kubelet_socket n moments b.1
    ]
