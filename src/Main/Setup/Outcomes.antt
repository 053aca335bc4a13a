-- ===== src/Main/Setup/Outcomes.antt =====
-- cmd/main.go, main: how it ends, with what it has set up.
use Prim.Native.String
use ascend_device_plugin.Base.{
  ℕ, String, Bool, true, false, [], ◌≡◌, ◌≢◌, ◌⊎◌, List, none, some, ok, Outcome, returns,
}
use ascend_device_plugin.Base.Dict.{insert}
use ascend_device_plugin.Monitor.Setup.{Access, Effect}
use ascend_device_plugin.Main.Metrics.{Served}
use ascend_device_plugin.Manager.Driver.{DeviceInterface}
use ascend_device_plugin.Manager.State.{AscendManager, new_ascend_manager, load_config, common_word}
use ascend_device_plugin.Manager.State.Nodes.{AdoptsNode}
use ascend_device_plugin.Server.Plugin.{PluginServer}
use ascend_device_plugin.Server.Lifecycle.{Outside}
use ascend_device_plugin.Main.{Moment}
use ascend_device_plugin.Main.Watchers.{Fsnotify}
use ascend_device_plugin.Main.Generations.{Ends}
use ascend_device_plugin.Main.Setup.{
  Flags, Fatal, Program, version_text, printed, fatal, exit_of, start_plugin, Exit, Ready, SetUp,
  quits, ready, check_flags,
}

module _ (program : Program) (flags : Flags) where
  -- The server for a common word.
  abbrev pub server_for : String → PluginServer
  server_for word = record {
    common_word = word;
    node_name = flags.node_name;
    register_anno = String.◌++◌ "hami.io/node-register-" word;
    handshake_anno = String.◌++◌ "hami.io/node-handshake-" word;
    alloc_anno = String.◌++◌ "huawei.com/" word;
    to_alloc_device_anno = String.◌++◌ "hami.io/" (String.◌++◌ word "-devices-to-allocate");
    socket = program.join (String.◌++◌ word ".sock");
    check_idle_vnpu_interval = flags.check_idle_vnpu_interval;
    enable_periodic_idle_vnpu_cleanup = flags.enable_periodic_idle_vnpu_cleanup;
    last_published_devices = "";
  }

  -- What the manager reports: the node's switch where the node is configured, else the file's.
  abbrev pub reported_core : AscendManager → Bool
  reported_core am = elim am.node_config [
    | none ↦ am.global_config.vnpus.hami_vnpu_core
    | some n ↦ n.hami_vnpu_core
  ]

  module _ {W : Type 0} (d : DeviceInterface W) (w : W) where
    -- A manager is ready that has adopted an entry of the configuration file, with its server.
    abbrev pub IsReady : Ready → Type 0
    IsReady r =
        (loaded : AscendManager) × (load_config program.sort_slice d w program.files
            flags.config_file new_ascend_manager
          ≡ returns (ok tt, loaded))
        × (r.manager.config ≡ loaded.config)
        × (((flags.node_config_file ≡ "") × (r.manager ≡ loaded))
            ⊎ ((flags.node_config_file ≢ "")
                × AdoptsNode program.files flags.node_config_file flags.node_name loaded r.manager))
        × (r.server ≡ server_for loaded.config.common_word)
        × (r.in_request_devices
            ≡ insert loaded.config.common_word
                (server_for loaded.config.common_word).to_alloc_device_anno
                program.in_request_devices)
        × (r.serves_metrics ≡ reported_core r.manager)

    abbrev pub Outcomes : Outcome SetUp → Type 0
    Outcomes done =
        ((reason : Fatal) × (done ≡ returns (quits reason)))
        ⊎ ((r : Ready) × (done ≡ returns (ready r)) × (check_flags flags ≡ none) × IsReady r)

    -- The version is printed, a call of Fatalf is made, or the plugin is started: the generations of start,
    -- and main ends as start returns.
    abbrev pub Exits :
        {Cfg Cs : Type 0}
        → Access Cfg Cs
        → W
        → (ℕ → Outside)
        → String
        → String
        → Fsnotify
        → List (Moment W)
        → Outcome (Exit × List Effect)
        → Type 0
    Exits access w' outside kubelet_socket plugin_path fsnotify moments done =
        let started = λ (r : Ready).
          start_plugin program flags d outside kubelet_socket plugin_path fsnotify r moments w' in
        ((flags.print_version ≡ true) × (done ≡ returns (printed (version_text program), [])))
        ⊎ ((reason : Fatal) × (flags.print_version ≡ false) × (done ≡ returns (fatal reason, [])))
        ⊎ ((r : Ready) × (flags.print_version ≡ false)
            × (check_flags flags ≡ none)
            × IsReady r
            × Ends kubelet_socket d outside moments (started r)
            × ((fx : List Effect) × Served access (reported_core r.manager) fx
                × (done ≡ returns (exit_of (started r).0, fx))))
