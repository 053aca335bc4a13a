-- ===== src/Server/Watch/Streams.antt =====
-- internal/server/server.go, ListAndWatch, and register.go, watchAndRegister: any number of streams at once.
-- A stream that kubelet has left stays one of them until the plugin stops, since the handler looks neither
-- at the error of Send nor at its stream's context.
pub mod Changed
pub mod Lost
use ascend_device_plugin.Base.{ℕ, ◌≡◌, List, [], ◌∷◌, ◌++◌, some, Outcome, returns, get_elem?, set}
use ascend_device_plugin.Manager.Driver.{DeviceInterface}
use ascend_device_plugin.Manager.State.{AscendManager, Device}
use ascend_device_plugin.Manager.Devices.{get_devices}
use ascend_device_plugin.Server.Plugin.{PluginServer}
use ascend_device_plugin.Server.Register.{Cluster, NodeEffect}
use ascend_device_plugin.Server.Watch.{Watching, Next, accepted, timed_out, Ticked, tick}

-- Each running handler of ListAndWatch, by the devices that it sent last.
pub record Handlers : Type 0 where
  pub server : PluginServer
  pub manager : AscendManager
  pub streams : List (List Device)

-- kubelet opens a stream: the first Send.
unfoldable pub listen : Handlers → Handlers
unfolding get_devices
listen s = record s { streams = s.streams ++ (get_devices s.manager ∷ []) }

-- What watchAndRegister and the handler of a stream work on.
abbrev pub seen : List Device → Handlers → Watching
seen told s = record { server = s.server; manager = s.manager; told = told }

abbrev pub with_streams : Watching → List (List Device) → Handlers
with_streams u streams = record { server = u.server; manager = u.manager; streams = streams }

-- What happens until the stop channel is closed: kubelet opens a stream, or a round of watchAndRegister, in
-- which any one of the handlers would receive from healthCh, or none would in time.
module _ {W : Type 0} (d : DeviceInterface W) where
  pub data Step (s : Handlers) : Handlers → Type 0 where
    listens : Step s (listen s)
    taken :
        (i : ℕ) (told : List Device) (u : Watching) (w : W) (cluster : Cluster) (next : Next)
        (fx : List NodeEffect)
        → get_elem? s.streams i ≡ some told
        → tick d w cluster accepted (seen told s) ≡ returns (next, fx, u)
        → Step s (with_streams u (set s.streams i u.told))
    untaken :
        (u : Watching) (w : W) (cluster : Cluster) (next : Next) (fx : List NodeEffect)
        → tick d w cluster timed_out (seen [] s) ≡ returns (next, fx, u)
        → Step s (with_streams u s.streams)

  pub data Run (s : Handlers) : Handlers → Type 0 where
    here : Run s s
    later : {t u : Handlers} → Run s t → Step t u → Run s u
