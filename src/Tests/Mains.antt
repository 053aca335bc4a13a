-- ===== src/Tests/Mains.antt =====
-- main on the node of `Fixtures`, its metrics server, and its watcher of files.
use Prim.Native.String.{◌++◌}
use ascend_device_plugin.Base.{
  String, true, false, ◌≡◌, ◌⊎◌, ◌↔◌, [], none, some, pos, ok, returns, ◌==◌, if◌then◌else◌,
}
use ascend_device_plugin.Monitor.Setup.{Access}
use ascend_device_plugin.Main.Setup.{Flags, Program}
use ascend_device_plugin.Main.Metrics.{
  Served, serve_metrics, serve_metrics_lem, metrics_path, default_path, container_shmem_dir_iff,
}
use ascend_device_plugin.Main.Watchers.{Fsnotify}
use ascend_device_plugin.Monitor.Containers.Names.{dir_name}
use ascend_device_plugin.Server.Allocate.Response.{container_shmem_dir}
use ascend_device_plugin.Tests.Managers.{sample_files}
use ascend_device_plugin.Tests.Servers.{host, pod}

abbrev program : Program
program = record {
  version = "v1.2.0";
  init_logger = ok tt;
  auto_init = ok tt;
  files = sample_files;
  sort_slice = λ less templates. templates;
  join = λ name. name;
  in_request_devices = [];
}

abbrev flags : Flags
flags = record {
  print_version = false;
  config_file = "config.yaml";
  node_config_file = "node.yaml";
  node_name = "node-1";
  check_idle_vnpu_interval = pos 60;
  enable_periodic_idle_vnpu_cleanup = false;
}

abbrev plugin_path : String
plugin_path = "/var/lib/kubelet/device-plugins/"

-- Only the plugins' directory can be watched.
abbrev fsnotify : Fsnotify
fsnotify = record {
  new_watcher = none;
  add = λ file. if file == plugin_path then none else some "no such file or directory";
}

abbrev access : Access (Unit {0}) (Unit {0})
access = record {
  kubeconfig_env = "";
  node_name_env = "node-1";
  build_config_from_flags = λ path. ok tt;
  new_for_config = λ config. ok tt;
  wait_for_cache_sync = λ clientset selector. true;
  must_register = λ descs. returns tt;
}

serve_metrics_lem_example : Served access true (serve_metrics access true)
serve_metrics_lem_example = serve_metrics_lem access true

container_shmem_dir_iff_example :
    (container_shmem_dir host pod "main" ≡ metrics_path ++ "/" ++ dir_name pod.uid "main")
    ↔ ((host.hook_path_env ≡ "") ⊎ (host.hook_path_env ≡ default_path))
container_shmem_dir_iff_example = container_shmem_dir_iff host pod "main"
