-- ===== src/Main/Metrics.antt =====
-- cmd/main.go, main: the goroutine of the metrics server, and the directories that it is given.
use Prim.Native.String.{◌++◌}
use text.Mathlib.TextLemmas.{append_cancel_right, append_assoc}
use ascend_device_plugin.Base.{
  String, Bool, true, false, ◌==◌, ◌≡◌, ◌≢◌, ◌⊎◌, ◌↔◌, refl, sym, subst, ap, ◌∙◌, inl, inr, List,
  [], ◌∷◌, Result, ok, err, Error, message, Outcome, returns, panics, if◌then◌else◌, Result-cases,
  Bool-cases, eq_iff,
}
use ascend_device_plugin.Server.Plugin.{Pod}
use ascend_device_plugin.Server.Allocate.Response.{Host, container_shmem_dir, host_hook_path}
use ascend_device_plugin.Monitor.Collector.{describe}
use ascend_device_plugin.Monitor.Containers.Names.{dir_name}
use ascend_device_plugin.Monitor.Setup.{
  Access, Effect, ContainerLister, informer_started, collector_registered, handled, listens_on,
  field_selector, start_informer, new_container_lister, collector_of, new_vnpu_collector,
  serve_collector, start_metrics_server,
}

abbrev pub metrics_addr : String
metrics_addr = ":9395"

abbrev pub metrics_path : String
metrics_path = "/usr/local/hami-vnpu-core/containers"

module _ {Cfg Cs : Type 0} (access : Access Cfg Cs) where
  -- A panic of the goroutine is recovered and logged.
  unfoldable pub serve_metrics : Bool → List Effect
  serve_metrics hami_vnpu_core =
      if hami_vnpu_core then (start_metrics_server access metrics_addr metrics_path).1 else []

  abbrev selector : String
  selector = field_selector access.node_name_env

  -- All that has to succeed before anything listens.
  abbrev pub CanServe : Bool → Type 0
  CanServe hami_vnpu_core =
      (config : Cfg) × (clientset : Cs) × (hami_vnpu_core ≡ true)
      × (access.build_config_from_flags access.kubeconfig_env ≡ ok config)
      × (access.new_for_config config ≡ ok clientset)
      × (access.node_name_env ≢ "")
      × (access.wait_for_cache_sync clientset selector ≡ true)
      × (access.must_register describe ≡ returns tt)

  abbrev pub Served : Bool → List Effect → Type 0
  Served hami_vnpu_core fx =
      (CanServe hami_vnpu_core
        × (fx
            ≡ informer_started selector
              ∷ collector_registered describe
              ∷ handled "/metrics"
              ∷ listens_on metrics_addr
              ∷ []))
      ⊎ (¬ CanServe hami_vnpu_core × ((fx ≡ []) ⊎ (fx ≡ informer_started selector ∷ [])))

  -- What follows from the lister: nothing where it could not be made.
  abbrev served_by : Result ContainerLister × List Effect → List Effect
  served_by r = (serve_collector access metrics_addr (collector_of access metrics_path r)).1

  serve_metrics-served_by :
      serve_metrics true ≡ served_by (new_container_lister access metrics_path)
  unfolding serve_metrics start_metrics_server new_vnpu_collector
  serve_metrics-served_by = refl

  abbrev Listed : Result ContainerLister × List Effect → Type 0
  Listed r =
      ((e : Error) × (r ≡ (err e, [])) × ¬ CanServe true)
      ⊎ ((config : Cfg) × (clientset : Cs) × (access.build_config_from_flags access.kubeconfig_env
            ≡ ok config)
          × (access.new_for_config config ≡ ok clientset)
          × (access.node_name_env ≢ "")
          × (r ≡ start_informer access metrics_path clientset))

  new_container_lister-Listed : Listed (new_container_lister access metrics_path)
  unfolding new_container_lister
  new_container_lister-Listed =
      elim (Result-cases (access.build_config_from_flags access.kubeconfig_env)) [
        | inr (e, p) ↦ inl (e, rw (p, new_container_lister) refl, λ c. cc (c.3))
        | inl (config, p) ↦ elim (Result-cases (access.new_for_config config)) [
          | inr (e, q) ↦ inl (e, rw (p, q, new_container_lister) refl, λ c. cc (c.3, c.4))
          | inl (clientset, q) ↦ elim (Bool-cases (access.node_name_env == "")) [
            | inl unset ↦ inl (
              message "env NODE_NAME not set",
              rw (p, q, unset, new_container_lister) refl,
              λ c. c.5 ((eq_iff access.node_name_env "").0 unset),
            )
            | inr named ↦ inr (
              config,
              clientset,
              p,
              q,
              λ h. cc ((eq_iff access.node_name_env "").1 h),
              rw (p, q, named, new_container_lister) refl,
            )
          ]
        ]
      ]

  module _ (config : Cfg) (clientset : Cs)
      (built : access.build_config_from_flags access.kubeconfig_env ≡ ok config)
      (made : access.new_for_config config ≡ ok clientset) (named : access.node_name_env ≢ "") where
    informed-Served :
        (synced : Bool)
        → access.wait_for_cache_sync clientset selector ≡ synced
        → (registered : Outcome (Unit {0})) → access.must_register describe ≡ registered
        → Served true (served_by (start_informer access metrics_path clientset))
    unfolding start_informer serve_collector
    informed-Served false p registered q =
        inr (λ c. cc (c.3, c.4, c.6), inr (rw (p, start_informer) refl))
    informed-Served true p panics q =
        inr (λ c. cc (c.7), inr (rw (p, start_informer) (rw (q, serve_collector) refl)))
    informed-Served true p (returns t) q = inl (
      (config, clientset, refl, built, made, named, p, q),
      rw (p, start_informer) (rw (q, serve_collector) refl),
    )

  -- Metrics are served exactly where the manager reports hami-vnpu-core, the client's configuration and the
  -- clientset can be made, NODE_NAME is set, the informer's cache is synced and the collector can be
  -- registered: then the informer of the node's pods is started, the collector registered, and then the
  -- server listens. Otherwise nothing happens but, at most, that the informer is started.
  pub serve_metrics_lem :
      (hami_vnpu_core : Bool) → Served hami_vnpu_core (serve_metrics hami_vnpu_core)
  unfolding serve_metrics serve_collector
  serve_metrics_lem false = inr (λ c. cc (c.2), inl refl)
  serve_metrics_lem true = elim new_container_lister-Listed [
    | inl (e, p, cannot) ↦ inr (cannot, inl (serve_metrics-served_by ∙ ap served_by p))
    | inr (config, clientset, built, made, named, p) ↦
        subst (Served true) (ap served_by (sym p) ∙ sym serve_metrics-served_by)
          (informed-Served config clientset built made named _ refl _ refl)
  ]

-- hostHookPath without HOOK_PATH.
abbrev pub default_path : String
default_path = "/usr/local/hami-vnpu-core"

host_hook_path-default :
    (host : Host)
    → (host_hook_path host ≡ default_path)
      ↔ ((host.hook_path_env ≡ "") ⊎ (host.hook_path_env ≡ default_path))
unfolding host_hook_path
host_hook_path-default host = elim (Bool-cases (host.hook_path_env == "")) [
  | inl unset ↦
      (λ h. inl ((eq_iff host.hook_path_env "").0 unset), λ h. rw (unset, host_hook_path) refl)
  | inr given ↦ (λ h. inr (rw (given, host_hook_path) at h), back given)
]
  where
    back :
        host.hook_path_env == "" ≡ false
        → ((host.hook_path_env ≡ "") ⊎ (host.hook_path_env ≡ default_path))
        → host_hook_path host ≡ default_path
    back given (inl e) = absurd (cc ((eq_iff host.hook_path_env "").1 e))
    back given (inr e) = rw (given, host_hook_path) e

-- The directory that Allocate mounts into a container lies where the metrics server looks for it exactly if
-- HOOK_PATH is unset or names the default.
pub container_shmem_dir_iff :
    (host : Host) (pod : Pod) (ctr_name : String)
    → (container_shmem_dir host pod ctr_name ≡ metrics_path ++ "/" ++ dir_name pod.uid ctr_name)
      ↔ ((host.hook_path_env ≡ "") ⊎ (host.hook_path_env ≡ default_path))
container_shmem_dir_iff host pod ctr_name = (
  λ h.
      (host_hook_path-default host).0
        (append_cancel_right (host_hook_path host) default_path entry (h ∙ there)),
  λ h. ap (λ p. p ++ entry) ((host_hook_path-default host).1 h) ∙ sym there,
)
  where
    entry : String
    entry = "/containers/" ++ dir_name pod.uid ctr_name

    there : metrics_path ++ "/" ++ dir_name pod.uid ctr_name ≡ default_path ++ entry
    there =
        sym (append_assoc metrics_path "/" (dir_name pod.uid ctr_name))
        ∙ append_assoc default_path "/containers/" (dir_name pod.uid ctr_name)
