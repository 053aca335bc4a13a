-- ===== src/Server/Allocate/Calls/Split.antt =====
-- internal/server/server.go, Allocate: what a call for a pod answers and reports.
use ascend_device_plugin.Base.{
  String, ◌≡◌, ◌⊎◌, refl, ap, ◌∙◌, inl, inr, List, [], ◌∷◌, ◌++◌, none, some, ok, err, Error, wrap,
  Result-cases,
}
use ascend_device_plugin.Base.Dict.{Dict}
use ascend_device_plugin.Server.Plugin.{Manager, Pod, PluginServer, RuntimeInfo, node_lock_ascend}
use ascend_device_plugin.Server.Allocate.Response.{
  ContainerAllocateResponse, Effect, remove_all, mkdir_all, chmod, patch_pod_annotations,
  pod_allocation_try_success, pod_allocation_failed, Hami, Host,
}
use ascend_device_plugin.Server.Allocate.Response.Local.{AllLocal}
use ascend_device_plugin.Server.Allocate.Handler.{
  Request, found, serve_requests, build_runtime_info_lookup, decode_device_annotations,
  erased_annotation, updated, patch_erased_annotation, prepare, finish, allocate_pod, allocate,
}
use ascend_device_plugin.Server.Allocate.Handler.Outcomes.{allocate-finish, serve_requests-local}
use ascend_device_plugin.Server.Allocate.Calls.{reported}
use ascend_device_plugin.Server.Allocate.Calls.Trailing.{Loop}

reported-local :
    (fx : List Effect) (pod pod' : Pod) (annos : Dict String) (node word lock : String)
    → AllLocal fx
    → reported (
        fx ++ patch_pod_annotations pod annos ∷ pod_allocation_try_success node word lock pod' ∷ [])
      ≡ some pod'
unfolding reported
reported-local [] pod pod' annos node word lock h = refl
reported-local (remove_all p ∷ fx) pod pod' annos node word lock h =
    reported-local fx pod pod' annos node word lock h
reported-local (mkdir_all p ∷ fx) pod pod' annos node word lock h =
    reported-local fx pod pod' annos node word lock h
reported-local (chmod p ∷ fx) pod pod' annos node word lock h =
    reported-local fx pod pod' annos node word lock h
reported-local (patch_pod_annotations p a ∷ fx) pod pod' annos node word lock h = absurd h
reported-local (pod_allocation_try_success n w l p ∷ fx) pod pod' annos node word lock h = absurd h
reported-local (pod_allocation_failed n p l ∷ fx) pod pod' annos node word lock h = absurd h

module _ {D : Type 0} (hami : Hami D) (ps : PluginServer) (mgr : Manager) (host : Host) where
  -- What a call needs to succeed, with what it leaves of the pod's queue.
  abbrev pub Serves : Pod → List Request → List ContainerAllocateResponse → List (List D) → Type 0
  Serves pod reqs resps rest =
      (infos : Dict RuntimeInfo) × (psd : List (List D)) × (fx : List Effect)
      × (build_runtime_info_lookup hami ps mgr host pod ≡ ok infos)
      × (decode_device_annotations hami ps mgr host pod ≡ ok psd)
      × (serve_requests hami ps mgr host pod infos reqs psd ≡ (ok (resps, rest), fx))

  abbrev pub Answers : Pod → List Request → List ContainerAllocateResponse → List (List D) → Type 0
  Answers pod reqs resps rest =
      (fx : List Effect) × (allocate hami ps mgr host (found pod) reqs ≡ (ok resps, fx))
      × (reported fx ≡ some (updated hami ps mgr host pod rest))

  pub Serves-Answers :
      (pod : Pod) (reqs : List Request) (resps : List ContainerAllocateResponse)
      (rest : List (List D))
      → ((annos : Dict String) → host.patches pod annos ≡ none)
      → Serves pod reqs resps rest
      → Answers pod reqs resps rest
  unfolding finish patch_erased_annotation
  Serves-Answers pod reqs resps rest accepted (infos, psd, fx, i, d, s) = (
    fx
        ++ patch_pod_annotations pod (erased_annotation hami ps mgr host rest)
          ∷ pod_allocation_try_success ps.node_name ps.common_word node_lock_ascend
              (updated hami ps mgr host pod rest)
          ∷ [],
    allocate-finish hami ps mgr host pod reqs infos psd i d
        ∙ rw s (rw (accepted (erased_annotation hami ps mgr host rest), finish) refl),
    reported-local fx pod _ _ _ _ _
        (rw s at (serve_requests-local hami ps mgr host pod infos reqs psd)),
  )

  abbrev pub Fails : Pod → List Request → Type 0
  Fails pod reqs =
      (e : Error) × (fx : List Effect) × (allocate hami ps mgr host (found pod) reqs ≡ (err e, fx))

  allocate-served :
      (pod : Pod) (reqs : List Request) (infos : Dict RuntimeInfo) (psd : List (List D))
      → build_runtime_info_lookup hami ps mgr host pod ≡ ok infos
      → decode_device_annotations hami ps mgr host pod ≡ ok psd
      → (l : Loop hami ps mgr host pod infos)
      → serve_requests hami ps mgr host pod infos reqs psd ≡ l
      → ((resps : List ContainerAllocateResponse) × (rest : List (List D)) × Serves pod reqs resps
            rest)
        ⊎ Fails pod reqs
  unfolding finish
  allocate-served pod reqs infos psd i d (err e, fx) s = inr (
    e,
    _,
    allocate-finish hami ps mgr host pod reqs infos psd i d ∙ ap (finish hami ps mgr host pod) s,
  )
  allocate-served pod reqs infos psd i d (ok (resps, rest), fx) s =
      inl (resps, rest, (infos, psd, fx, i, d, s))

  reports_failure : Pod → List Effect
  reports_failure pod = pod_allocation_failed ps.node_name pod node_lock_ascend ∷ []

  pub allocate-cases :
      (pod : Pod) (reqs : List Request)
      → ((resps : List ContainerAllocateResponse) × (rest : List (List D)) × Serves pod reqs resps
            rest)
        ⊎ Fails pod reqs
  unfolding allocate prepare finish reports_failure
  allocate-cases pod reqs = elim (Result-cases (build_runtime_info_lookup hami ps mgr host pod)) [
    | inr (e, p) ↦
        inr (wrap "build runtimeInfo lookup" e, reports_failure pod, rw (p, allocate_pod) refl)
    | inl (infos, p) ↦ elim (Result-cases (decode_device_annotations hami ps mgr host pod)) [
      | inr (e, q) ↦
          inr
            (wrap "decode device annotations" e, reports_failure pod, rw (p, q, allocate_pod) refl)
      | inl (psd, q) ↦ allocate-served pod reqs infos psd p q _ refl
    ]
  ]
