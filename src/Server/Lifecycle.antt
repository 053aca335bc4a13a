-- ===== src/Server/Lifecycle.antt =====
-- internal/server/server.go: Start, Stop and serve; register.go: registerKubelet. What is done outside is a
-- list of effects in order. A goroutine is a member of `wg` from its start until it is waited for.
pub mod Started
pub mod Crashes
pub mod Dialing
pub mod Checks
use ascend_device_plugin.Base.{
  ℕ, String, Bool, true, false, List, [], ◌∷◌, ◌++◌, Option, none, some, Result, ok, err, Error,
  wrap, or_wrap,
}
use ascend_device_plugin.Manager.Driver.{DeviceInterface}
use ascend_device_plugin.Manager.State.{AscendManager}
use ascend_device_plugin.Manager.Devices.{update_device}
use ascend_device_plugin.Manager.Cleanup.{cleanup_idle_vnpus}
use ascend_device_plugin.Server.Plugin.{PluginServer, manager_of}
use ascend_device_plugin.Server.Publish.{device_fingerprint}
use ascend_device_plugin.Server.DeviceShare.{ChipKey, NpuSmi, enable_node_device_share}
use ascend_device_plugin.Server.Watch.{Watching}

-- ps.stopCh, ps.grpcServer and the functions that are started with ps.wg.Go.
pub data StopChannel : Type 0 where
  unclosed closed : StopChannel

pub data GrpcServer : Type 0 where
  created halted : GrpcServer

pub data Goroutine : Type 0 where
  serving watching checking : Goroutine

-- `watched` holds the server's fields, its manager and what kubelet was told; `hardware` the driver's state.
pub record Life (W : Type 0) : Type 0 where
  pub watched : Watching
  pub hardware : W
  pub stop_ch : Option StopChannel
  pub grpc_server : Option GrpcServer
  pub wg : List Goroutine

pub record RegisterRequest : Type 0 where
  pub version : String
  pub endpoint : String
  pub resource_name : String
  pub get_preferred_allocation_available : Bool

pub data Effect : Type 0 where
  ran : List String → Effect
  socket_removed : Effect
  listened : Effect
  registered : RegisterRequest → Effect

-- What Start finds outside: host resources, npu-smi with the order of Go's map of chips, net.Listen on the
-- socket, a connection to a socket, client.Register, v1beta1's Version and KubeletSocket, and path.Base.
pub record Outside : Type 0 where
  pub prepare_host_resources : Result (Unit {0})
  pub order : List ChipKey → List ChipKey
  pub smi : NpuSmi
  pub listen : String → Result (Unit {0})
  pub dial : String → Result (Unit {0})
  pub register : RegisterRequest → Result (Unit {0})
  pub version : String
  pub kubelet_socket : String
  pub path_base : String → String

abbrev pub commands_run : List (List String) → List Effect
commands_run [] = []
commands_run (command ∷ commands) = ran command ∷ commands_run commands

-- A call's error, the state that it leaves and its effects.
abbrev pub Done : Type 0 → Type 0
Done W = Result (Unit {0}) × Life W × List Effect

-- close(ps.stopCh), where it is there and not closed.
unfoldable pub close_stop_ch : Option StopChannel → Option StopChannel
close_stop_ch none = none
close_stop_ch (some closed) = some closed
close_stop_ch (some unclosed) = some closed

unfoldable pub stop_grpc : Option GrpcServer → Option GrpcServer
stop_grpc none = none
stop_grpc (some server) = some halted

-- What wakes the goroutine that checks for idle vNPUs.
pub data Woken : Type 0 where
  tick_fired stop_closed : Woken

module _ {W : Type 0} where
  abbrev pub after : List Effect → Done W → Done W
  after fx (r, s, more) = (r, s, fx ++ more)

  abbrev pub started_goroutine : Goroutine → Life W → Life W
  started_goroutine g s = record s { wg = g ∷ s.wg }

  unfoldable pub start_goroutines : Life W → Life W
  start_goroutines s = elim s.watched.server.enable_periodic_idle_vnpu_cleanup [
    | true ↦ started_goroutine watching (started_goroutine checking s)
    | false ↦ started_goroutine watching s
  ]

  -- Every goroutine returns once the channel is closed and the server is stopped, and ps.wg.Wait waits for
  -- that.
  unfoldable pub stop : Life W → Done W
  unfolding close_stop_ch stop_grpc
  stop s = (
    ok tt,
    record s { stop_ch = close_stop_ch s.stop_ch; grpc_server = stop_grpc s.grpc_server; wg = [] },
    socket_removed ∷ [],
  )

  module _ (out : Outside) where
    unfoldable pub register_request : Life W → RegisterRequest
    register_request s = record {
      version = out.version;
      endpoint = out.path_base s.watched.server.socket;
      resource_name = (manager_of s.watched.manager).resource_name;
      get_preferred_allocation_available = false;
    }

    unfoldable pub register_kubelet : Life W → Result (Unit {0}) × List Effect
    register_kubelet s = elim (out.dial out.kubelet_socket) [
      | err e ↦ (err e, [])
      | ok t ↦ (out.register (register_request s), registered (register_request s) ∷ [])
    ]

    -- The goroutine is started before the socket is dialed.
    unfoldable pub serve : Life W → Done W
    serve s =
        let path = s.watched.server.socket in
        elim (out.listen path) [
          | err e ↦ (err e, s, socket_removed ∷ [])
          | ok t ↦ (
            or_wrap "failed to dial device plugin socket" (out.dial path),
            started_goroutine serving s,
            socket_removed ∷ listened ∷ [],
          )
        ]

    unfoldable pub start_registered : Life W → Result (Unit {0}) × List Effect → Done W
    unfolding start_goroutines
    start_registered s (err e, fx) = (err e, s, fx)
    start_registered s (ok t, fx) = (ok tt, start_goroutines s, fx)

    unfoldable pub start_served : Done W → Done W
    unfolding start_registered
    start_served (err e, s, fx) = (err e, s, fx)
    start_served (ok t, s, fx) = after fx (start_registered s (register_kubelet s))

    unfoldable pub start_shared : Life W → Result (Unit {0}) × List (List String) → Done W
    unfolding start_served
    start_shared s (err e, commands) = (err e, s, commands_run commands)
    start_shared s (ok t, commands) = after (commands_run commands) (start_served (serve s))

    -- `ps.lastPublishedDevices = ps.deviceFingerprint()`
    abbrev pub published_first : Life W → Life W
    published_first s = record s {
      watched = record s.watched {
        server = record s.watched.server {
          last_published_devices = device_fingerprint (manager_of s.watched.manager);
        };
      };
    }

    unfoldable pub start_updated : Life W → Result (Unit {0}) → Done W
    unfolding start_shared
    start_updated s (err e) = (err e, s, [])
    start_updated s (ok t) =
        start_shared (published_first s)
          (enable_node_device_share out.order out.smi (manager_of s.watched.manager))

    unfoldable pub start : DeviceInterface W → Life W → Done W
    unfolding start_updated
    start d s = elim out.prepare_host_resources [
      | err e ↦ (err e, s, [])
      | ok t ↦
          let (r, am) = update_device d s.hardware s.watched.manager in
          start_updated
            (record s {
              watched = record s.watched { manager = am };
              stop_ch = some unclosed;
              grpc_server = some created;
            })
            r
    ]

  unfoldable pub cleanup : DeviceInterface W → Life W → Result (Unit {0}) × Life W
  cleanup d s =
      let (r, w) = cleanup_idle_vnpus d s.watched.manager s.hardware in
      (r, record s { hardware = w })

  -- The goroutine, over what wakes it, and the hardware that it leaves.
  unfoldable pub start_periodic_check_idle_vnpus :
      DeviceInterface W → AscendManager → List Woken → W → W
  start_periodic_check_idle_vnpus d am [] w = w
  start_periodic_check_idle_vnpus d am (stop_closed ∷ wakes) w = w
  start_periodic_check_idle_vnpus d am (tick_fired ∷ wakes) w =
      start_periodic_check_idle_vnpus d am wakes (cleanup_idle_vnpus d am w).1
