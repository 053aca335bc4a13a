-- ===== src/Main.antt =====
-- cmd/main.go: start, the loop that starts the plugin anew when kubelet's socket is made or on SIGHUP.
pub mod Generations
pub mod Setup
pub mod Metrics
pub mod Watchers
use Prim.Native.String.{◌++◌}
use ascend_device_plugin.Base.{
  ℕ, suc, String, Bool, true, false, ◌==◌, ◌&&◌, List, [], ◌∷◌, Option, none, some, Result, ok, err,
  Error, message, if◌then◌else◌,
}
use ascend_device_plugin.Manager.Driver.{DeviceInterface}
use ascend_device_plugin.Manager.State.{AscendManager, Device}
use ascend_device_plugin.Server.Plugin.{PluginServer}
use ascend_device_plugin.Server.Watch.{Watching}
use ascend_device_plugin.Server.Lifecycle.{Life, Outside, start, stop, cleanup}

-- What the select receives: a file event with its name and whether it is a creation, an error of the
-- watcher, SIGHUP, or one of the other signals that were asked for.
pub data Event : Type 0 where
  file_event : String → Bool → Event
  watcher_error hang_up other_signal : Event

-- An event, with what the goroutines have left until then.
pub record Moment (W : Type 0) : Type 0 where
  pub event : Event
  pub manager : AscendManager
  pub last_published_devices : String
  pub told : List Device
  pub hardware : W

pub data Reaction : Type 0 where
  ignores restarts exits : Reaction

unfoldable pub reaction : String → Event → Reaction
reaction kubelet_socket (file_event name created) =
    if name == kubelet_socket && created then restarts else ignores
reaction kubelet_socket watcher_error = ignores
reaction kubelet_socket hang_up = restarts
reaction kubelet_socket other_signal = exits

-- Where the loop is after the events: it waits for the next one, or start has returned.
pub data Ended : Type 0 where
  waits : Ended
  returned : Result (Unit {0}) → Ended

unfoldable pub meet : {W : Type 0} → Moment W → Life W → Life W
meet m s = record s {
  watched = record {
    server = record s.watched.server { last_published_devices = m.last_published_devices };
    manager = m.manager;
    told = m.told;
  };
  hardware = m.hardware;
}

module _ {W : Type 0} (d : DeviceInterface W) (outside : ℕ → Outside) where
  -- The `n`-th start: an error of the cleanup is only logged.
  unfoldable pub boot : ℕ → Life W → Result (Unit {0}) × Life W
  boot n s =
      let (_, cleaned) = cleanup d s in
      let (r, started, _) = start (outside n) d cleaned in (r, started)

  module _ (kubelet_socket : String) where
    -- The loop, with the number of starts before it.
    unfoldable pub handle : ℕ → List (Moment W) → Life W → Ended × Life W
    handle n [] s = (waits, s)
    handle n (m ∷ moments) s = elim (reaction kubelet_socket m.event) [
      | ignores ↦ handle n moments (meet m s)
      | exits ↦ let (r, halted, _) = stop (meet m s) in (returned r, halted)
      | restarts ↦
          let (_, halted, _) = stop (meet m s) in
          let (r, started) = boot n halted in
          elim r [ err e ↦ (returned (err e), started) | ok t ↦ handle (suc n) moments started ]
    ]

    -- start, where the file watcher is made or fails with an error of this text.
    unfoldable pub run : Option String → List (Moment W) → Life W → Ended × Life W
    run (some text) moments s =
        (returned (err (message ("failed to create FS watcher: " ++ text))), s)
    run none moments s =
        let (r, started) = boot 0 s in
        elim r [ err e ↦ (returned (err e), started) | ok t ↦ handle 1 moments started ]
