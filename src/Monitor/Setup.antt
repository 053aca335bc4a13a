-- ===== src/Monitor/Setup.antt =====
-- internal/monitor: container.go, NewContainerLister and Stop, collector.go, newVNPUCollector, and metrics.go,
-- StartMetricsServer. What a call does to the outside is the list of its effects, in order.
use Prim.Native.String.{◌++◌}
use mathlib.Core.List
use ascend_device_plugin.Base.{
  String, Bool, true, false, ◌==◌, List, [], ◌∷◌, Result, ok, err, message, wrap, Outcome, returns,
  panics, if◌then◌else◌,
}
use ascend_device_plugin.Monitor.Collector.{Desc, describe}

-- The cluster's clients and the environment; `Cfg` is the client's configuration and `Cs` the clientset.
-- An informer is made for a field selector, and registering a collector takes what it describes.
pub record Access (Cfg Cs : Type 0) : Type 0 where
  pub kubeconfig_env : String
  pub node_name_env : String
  pub build_config_from_flags : String → Result Cfg
  pub new_for_config : Cfg → Result Cs
  pub wait_for_cache_sync : Cs → String → Bool
  pub must_register : List Desc → Outcome (Unit {0})

pub data Effect : Type 0 where
  informer_started : String → Effect
  collector_registered : List Desc → Effect
  handled : String → Effect
  listens_on : String → Effect

-- The fields but for the clients, the lister and the mutex.
pub record ContainerLister : Type 0 where
  pub containers_path : String
  pub node_name : String
  pub stop_ch_closed : Bool

pub record VnpuCollector : Type 0 where
  pub containers_path : String
  pub lister : ContainerLister

-- `close` of a closed channel panics.
unfoldable pub stop : ContainerLister → Outcome ContainerLister
stop lister =
    if lister.stop_ch_closed then panics else returns (record lister { stop_ch_closed = true })

abbrev pub field_selector : String → String
field_selector node_name = "spec.nodeName=" ++ node_name

module _ {Cfg Cs : Type 0} (access : Access Cfg Cs) where
  -- From the informer on.
  unfoldable pub start_informer : String → Cs → Result ContainerLister × List Effect
  start_informer containers_path clientset =
      let selector = field_selector access.node_name_env in
      (
        if access.wait_for_cache_sync clientset selector
            then ok (record {
              containers_path = containers_path;
              node_name = access.node_name_env;
              stop_ch_closed = false;
            })
            else err (message "failed to sync pod informer cache"),
        informer_started selector ∷ [],
      )

  unfoldable pub new_container_lister : String → Result ContainerLister × List Effect
  new_container_lister containers_path =
      elim (access.build_config_from_flags access.kubeconfig_env) [
        | err e ↦ (err e, [])
        | ok config ↦ elim (access.new_for_config config) [
          | err e ↦ (err e, [])
          | ok clientset ↦
              if access.node_name_env == ""
              then (err (message "env NODE_NAME not set"), [])
              else start_informer containers_path clientset
        ]
      ]

  abbrev pub collector_of :
      String → Result ContainerLister × List Effect → Result VnpuCollector × List Effect
  collector_of containers_path (err e, fx) = (err (wrap "new container lister" e), fx)
  collector_of containers_path (ok lister, fx) =
      (ok (record { containers_path = containers_path; lister = lister }), fx)

  unfoldable pub new_vnpu_collector : String → Result VnpuCollector × List Effect
  new_vnpu_collector containers_path =
      collector_of containers_path (new_container_lister containers_path)

  -- The goroutine that listens is started last; the error of the collector is only logged.
  unfoldable pub serve_collector :
      String → Result VnpuCollector × List Effect → Outcome (Unit {0}) × List Effect
  serve_collector bind_addr (err e, fx) = (returns tt, fx)
  serve_collector bind_addr (ok collector, fx) = elim (access.must_register describe) [
    | panics ↦ (panics, fx)
    | returns t ↦ (
      returns tt,
      List.◌++◌ fx (collector_registered describe ∷ handled "/metrics" ∷ listens_on bind_addr ∷ []),
    )
  ]

  unfoldable pub start_metrics_server : String → String → Outcome (Unit {0}) × List Effect
  start_metrics_server bind_addr containers_path =
      serve_collector bind_addr (new_vnpu_collector containers_path)
