-- ===== src/Main/Setup.antt =====
-- cmd/main.go: checkFlags and main, up to the loop of start and with it.
pub mod Outcomes
use Prim.Native.String.{◌++◌}
use ascend_device_plugin.Base.{
  ℕ, ℤ, String, Bool, true, false, not, ◌==◌, List, [], ◌∷◌, Option, none, some, Result, ok, err,
  Error, Outcome, returns, and_then, wrap, if◌then◌else◌,
}
use ascend_device_plugin.Base.Dict.{Dict}
use ascend_device_plugin.Config.{Files, Template}
use ascend_device_plugin.Manager.Driver.{DeviceInterface}
use ascend_device_plugin.Manager.State.{
  AscendManager, new_ascend_manager, load_config, load_node_config, is_hami_vnpu_core,
}
use ascend_device_plugin.Server.Plugin.{PluginServer, manager_of, new_plugin_server}
use ascend_device_plugin.Server.Lifecycle.{Life, Outside, unclosed}
use ascend_device_plugin.Main.{Moment, Ended, waits, returned, run}
use ascend_device_plugin.Main.Watchers.{Fsnotify, new_fs_watcher}
use ascend_device_plugin.Main.Metrics.{serve_metrics}
use ascend_device_plugin.Monitor.Setup.{Access, Effect}

pub record Flags : Type 0 where
  pub print_version : Bool
  pub config_file : String
  pub node_config_file : String
  pub node_name : String
  pub check_idle_vnpu_interval : ℤ
  pub enable_periodic_idle_vnpu_cleanup : Bool

-- The calls of klog.Fatalf, which end the process.
pub data Fatal : Type 0 where
  config_file_not_set node_name_not_set : Fatal
  logger_failed manager_failed config_failed : Error → Fatal

-- What main calls: the version that the build sets, the logger, devmanager.AutoInit, the configuration files, sort.Slice and path.Join.
pub record Program : Type 0 where
  pub version : String
  pub init_logger : Result (Unit {0})
  pub auto_init : Result (Unit {0})
  pub files : Files
  pub sort_slice : (Template → Template → Bool) → List Template → List Template
  pub join : String → String
  pub in_request_devices : Dict String

pub record Ready : Type 0 where
  pub server : PluginServer
  pub manager : AscendManager
  pub in_request_devices : Dict String
  pub serves_metrics : Bool

-- version.CheckVersionFlag prints a text and exits with status 0.
pub data SetUp : Type 0 where
  prints : String → SetUp
  quits : Fatal → SetUp
  ready : Ready → SetUp

abbrev pub version_text : Program → String
version_text program = "version: " ++ program.version ++ "\n"

unfoldable pub check_flags : Flags → Option Fatal
check_flags flags =
    if flags.config_file == ""
    then some config_file_not_set
    else if flags.node_name == ""
    then some node_name_not_set
    else none

-- The plugin's state when start is called.
unfoldable pub initial_life : {W : Type 0} → Ready → W → Life W
initial_life r w = record {
  watched = record { server = r.server; manager = r.manager; told = [] };
  hardware = w;
  stop_ch = some unclosed;
  grpc_server = none;
  wg = [];
}

module _ (program : Program) (flags : Flags) where
  -- A node configuration that cannot be loaded is only logged.
  unfoldable pub with_node_config : AscendManager → AscendManager
  with_node_config am =
      if flags.node_config_file == ""
      then am
      else (load_node_config program.files flags.node_config_file flags.node_name am).1

  unfoldable pub get_ready : AscendManager → Ready
  get_ready am =
      let (server, in_request_devices) =
        new_plugin_server program.join (manager_of am) flags.node_name
          flags.check_idle_vnpu_interval flags.enable_periodic_idle_vnpu_cleanup
          program.in_request_devices in
      record {
        server = server;
        manager = am;
        in_request_devices = in_request_devices;
        serves_metrics = is_hami_vnpu_core am;
      }

  unfoldable pub configured : Result (Unit {0}) × AscendManager → SetUp
  configured (err e, am) = quits (config_failed e)
  configured (ok t, am) = ready (get_ready (with_node_config am))

  module _ {W : Type 0} (d : DeviceInterface W) where
    -- With no flag for the version.
    unfoldable pub set_up_checked : W → Outcome SetUp
    set_up_checked w = elim (check_flags flags) [
      | some fatal ↦ returns (quits fatal)
      | none ↦ elim program.init_logger [
        | err e ↦ returns (quits (logger_failed e))
        | ok t ↦ elim program.auto_init [
          | err e ↦ returns (quits (manager_failed (wrap "failed to auto-init device manager" e)))
          | ok u ↦
              and_then
                (load_config program.sort_slice d w program.files flags.config_file
                  new_ascend_manager)
                λ loaded. returns (configured loaded)
        ]
      ]
    ]

    unfoldable pub set_up : W → Outcome SetUp
    unfolding set_up_checked
    set_up w =
        if flags.print_version then returns (prints (version_text program)) else set_up_checked w

-- How main ends, or that it waits for the next event.
pub data Exit : Type 0 where
  printed : String → Exit
  fatal : Fatal → Exit
  start_failed : Error → Exit
  waiting finished : Exit

abbrev pub exit_of : Ended → Exit
exit_of waits = waiting
exit_of (returned (ok t)) = finished
exit_of (returned (err e)) = start_failed e

module _ (program : Program) (flags : Flags) {W : Type 0} (d : DeviceInterface W)
    (outside : ℕ → Outside) (kubelet_socket plugin_path : String) (fsnotify : Fsnotify) where
  -- start, with the watcher of the directory of kubelet's and the plugins' sockets.
  unfoldable pub start_plugin : Ready → List (Moment W) → W → Ended × Life W
  start_plugin r moments w =
      run d outside kubelet_socket (new_fs_watcher fsnotify (plugin_path ∷ [])).0 moments
        (initial_life r w)

  abbrev pub exit : List (Moment W) → W → SetUp → Exit
  exit moments w (prints text) = printed text
  exit moments w (quits reason) = fatal reason
  exit moments w (ready r) = exit_of (start_plugin r moments w).0

  module _ {Cfg Cs : Type 0} (access : Access Cfg Cs) where
    -- The goroutine of the metrics server, which is started before the plugin.
    abbrev pub metrics_effects : SetUp → List Effect
    metrics_effects (prints text) = []
    metrics_effects (quits reason) = []
    metrics_effects (ready r) = serve_metrics access r.serves_metrics

    -- How main ends, and what its goroutine does. `w` is the hardware during the set-up and `w'` that when
    -- start is called.
    unfoldable pub main : W → W → List (Moment W) → Outcome (Exit × List Effect)
    main w w' moments =
        and_then (set_up program flags d w) λ s. returns (exit moments w' s, metrics_effects s)
