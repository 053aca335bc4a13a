-- ===== src/Tests/Lifecycles.antt =====
-- The plugin of `Publishing` from its first start on.
use ascend_device_plugin.Base.{
  Error, err, ltb, if◌then◌else◌, arith, ◌⊎◌, pos, String, true, false, ◌≡◌, ◌↔◌, refl, List, [],
  ◌∷◌, none, some, ok,
}
use ascend_device_plugin.Manager.State.{
  v_device_count, is_hami_vnpu_core, resource_name, should_ignore_device, should_check_ignored,
  lists_uuid, lists_index,
}
use ascend_device_plugin.Base.Text.{itoa}
use ascend_device_plugin.Config.{is_empty}
use ascend_device_plugin.Manager.Devices.{update_device, read_device, get_devices}
use ascend_device_plugin.Server.Plugin.{manager_of, new_plugin_server}
use ascend_device_plugin.Server.Publish.{fingerprint, device_fingerprint}
use ascend_device_plugin.Server.DeviceShare.{
  enable_node_device_share, enable_chips, apply_device_share, share_chips, resolve_npu_smi,
  chip_set,
}
use ascend_device_plugin.Server.Watch.{accepted, connect, tick}
use ascend_device_plugin.Server.Watch.Synced.{Told, tick-Told}
use ascend_device_plugin.Server.Watch.Rounds.{Rounds, start-Rounds}
use ascend_device_plugin.Server.Lifecycle.{
  Life, Outside, Effect, ran, socket_removed, listened, registered, serving, watching, checking,
  unclosed, created, start, start_updated, start_shared, start_served, start_registered,
  start_goroutines, serve, register_kubelet, register_request,
}
use ascend_device_plugin.Server.Lifecycle.Started.{Starts, start-Starts}
use ascend_device_plugin.Server.Lifecycle.Crashes.{
  Round, crashed, fatal, IsSevenfold, serve_loop, serve_loop-fatal_iff,
}
use ascend_device_plugin.Main.{Event, file_event, hang_up, other_signal, watcher_error, Moment}
use ascend_device_plugin.Server.Lifecycle.Dialing.{
  Connection, idle, connecting, ready, connected, closed_with, dial, GetsReady, dial-IsOver,
}
use ascend_device_plugin.Tests.Fixtures.{Hardware, sample_manager, sample_driver, first_card}
use ascend_device_plugin.Tests.Publishing.{ps, cluster, npu_smi}

abbrev pub life : Life Hardware
life = record {
  watched = record { server = ps; manager = sample_manager; told = [] };
  hardware = [];
  stop_ch = some unclosed;
  grpc_server = none;
  wg = [];
}

abbrev pub kubelet : String
kubelet = "/var/lib/kubelet/device-plugins/kubelet.sock"

abbrev pub out : Outside
out = record {
  prepare_host_resources = ok tt;
  order = λ chips. chips;
  smi = npu_smi;
  listen = λ path. ok tt;
  dial = λ path. ok tt;
  register = λ request. ok tt;
  version = "v1beta1";
  kubelet_socket = kubelet;
  path_base = λ path. path;
}

start-Starts_example : Starts out sample_driver life (start out sample_driver life)
start-Starts_example = start-Starts out sample_driver life

abbrev pub running_life : Life Hardware
running_life = record {
  watched = record {
    server = record ps { last_published_devices = fingerprint (first_card ∷ []) };
    manager = record sample_manager { devs = first_card ∷ [] };
    told = [];
  };
  hardware = [];
  stop_ch = some unclosed;
  grpc_server = some created;
  wg = watching ∷ checking ∷ serving ∷ [];
}

abbrev pub effects : List Effect
effects =
    ran (
      "/usr/local/sbin/npu-smi" ∷ "set" ∷ "-t" ∷ "device-share" ∷ "-i" ∷ "0" ∷ "-c" ∷ "0" ∷ "-d"
      ∷ "1" ∷ [])
    ∷ socket_removed
    ∷ listened
    ∷ registered (record {
      version = "v1beta1";
      endpoint = "Ascend310P.sock";
      resource_name = "Ascend310P";
      get_preferred_allocation_available = false;
    })
    ∷ []

pub started : start out sample_driver life ≡ (ok tt, running_life, effects)
unfolding start start_updated start_shared start_served start_registered start_goroutines serve
    register_kubelet register_request device_fingerprint manager_of get_devices update_device
    read_device should_ignore_device should_check_ignored lists_uuid lists_index is_empty
    enable_node_device_share enable_chips apply_device_share share_chips resolve_npu_smi chip_set
    itoa is_hami_vnpu_core resource_name new_plugin_server
started = refl

first_round :
    Told sample_driver [] cluster accepted
      (connect running_life.watched)
      (tick sample_driver [] cluster accepted (connect running_life.watched))
unfolding connect v_device_count
first_round =
    tick-Told sample_driver [] cluster accepted (connect running_life.watched) (pos 3) refl refl

start-Rounds_example : first_round.2.server.last_published_devices ≡ fingerprint first_round.2.told
start-Rounds_example =
    start-Rounds sample_driver out life running_life effects first_round.2 started (
      Rounds.round first_round.2 [] cluster accepted first_round.0 first_round.1 Rounds.before
        first_round.3)

abbrev moment : Event → Moment Hardware
moment event = record {
  event = event;
  manager = record sample_manager { devs = first_card ∷ [] };
  last_published_devices = fingerprint (first_card ∷ []);
  told = first_card ∷ [];
  hardware = [];
}

-- kubelet starts anew, the watcher has an error, and the plugin is restarted and ended by signals.
abbrev pub moments : List (Moment Hardware)
moments =
    moment (file_event kubelet true)
    ∷ moment watcher_error
    ∷ moment hang_up
    ∷ moment other_signal
    ∷ []

-- Six crashes within a second of each other, and one more after a day.
abbrev crashes : List Round
crashes =
    crashed 1000000000
    ∷ crashed 1000000000
    ∷ crashed 1000000000
    ∷ crashed 1000000000
    ∷ crashed 1000000000
    ∷ crashed 1000000000
    ∷ crashed 86400000000000
    ∷ []

quits_after_a_day : serve_loop 0 crashes ≡ fatal
unfolding serve_loop
quits_after_a_day = refl

serve_loop-fatal_iff_example : (serve_loop 0 crashes ≡ fatal) ↔ IsSevenfold crashes
serve_loop-fatal_iff_example = serve_loop-fatal_iff crashes

-- A connection that is ready in the third round, and that would be given up in the sixth.
abbrev connection : Connection
connection = record {
  new_client = ok tt;
  state = λ n. if ltb n 1 then idle else if ltb n 2 then connecting else ready;
  changes = λ n. ltb n 5;
  state_text = λ s. "state";
}

dial-IsOver_example :
    ((e : Error) × (connection.new_client ≡ err e)
      × (f : Error) × (dial connection "kubelet.sock" 6 ≡ some (err f)))
    ⊎ ((dial connection "kubelet.sock" 6 ≡ some (ok connected))
        × GetsReady connection "kubelet.sock" 0)
    ⊎ ((e : Error) × (dial connection "kubelet.sock" 6 ≡ some (ok (closed_with e)))
        × ¬ GetsReady connection "kubelet.sock" 0)
dial-IsOver_example = dial-IsOver connection "kubelet.sock" 6 5 refl (omega arith)
