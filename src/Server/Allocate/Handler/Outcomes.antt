-- ===== src/Server/Allocate/Handler/Outcomes.antt =====
-- internal/server/server.go, Allocate: what a call answers and does, on every path.
use ascend_device_plugin.Base.{
  String, ◌≡◌, refl, sym, subst, ◌⊎◌, inl, inr, List, [], ◌∷◌, ◌++◌, none, some, Result, ok, err,
  Error, wrap, Result-cases, Option-cases,
}
use ascend_device_plugin.Base.Dict.{Dict}
use ascend_device_plugin.Server.Plugin.{Manager, Pod, PluginServer, RuntimeInfo, node_lock_ascend}
use ascend_device_plugin.Server.Allocate.Response.{
  ContainerAllocateResponse, Effect, patch_pod_annotations, pod_allocation_try_success,
  pod_allocation_failed, Hami, Host,
}
use ascend_device_plugin.Server.Allocate.Response.Local.{AllLocal, AllLocal-append, build-local}
use ascend_device_plugin.Server.Allocate.Pending.Queue.{pending}
use ascend_device_plugin.Server.Allocate.Handler.{
  Request, found, Served, put_first, serve_request, serve_requests, build_runtime_info_lookup,
  decode_device_annotations, erased_annotation, updated, patch_erased_annotation, prepare, finish,
  allocate_pod, allocate,
}
use ascend_device_plugin.Server.Allocate.Handler.Serving.{
  Serves, serve_request-ok, serve_requests-cases,
}

module _ {D : Type 0} (hami : Hami D) (ps : PluginServer) (mgr : Manager) (host : Host) where
  -- Success: every request is served from the front of the pod's queue, the queue that is left is written
  -- back to the pod's annotation, and the pod with that annotation is reported.
  abbrev pub Succeeds :
      Pod → List Request → Result (List ContainerAllocateResponse) × List Effect → Type 0
  Succeeds pod reqs r =
      (infos : Dict RuntimeInfo) × (psd : List (List D)) × (rest : List (List D)) × (served : List
        (String × List D))
      × (resps : List ContainerAllocateResponse) × (fx : List Effect) × (build_runtime_info_lookup
            hami ps mgr host pod
          ≡ ok infos)
      × (decode_device_annotations hami ps mgr host pod ≡ ok psd)
      × (pending pod psd ≡ served ++ pending pod rest)
      × Serves hami ps mgr host pod infos reqs served resps fx
      × (host.patches pod (erased_annotation hami ps mgr host rest) ≡ none)
      × (r ≡ (
        ok resps,
        fx
            ++ patch_pod_annotations pod (erased_annotation hami ps mgr host rest)
              ∷ pod_allocation_try_success ps.node_name ps.common_word node_lock_ascend
                  (updated hami ps mgr host pod rest)
              ∷ [],
      ))

  -- Failure: nothing in the cluster changed but that the pod is reported as failed, once and last; the
  -- patch was called only if it is what failed.
  abbrev pub FailsWith : Pod → Result (List ContainerAllocateResponse) × List Effect → Type 0
  FailsWith pod r =
      (e : Error) × (fx : List Effect) × AllLocal fx
      × ((r ≡ (err e, fx ++ pod_allocation_failed ps.node_name pod node_lock_ascend ∷ []))
          ⊎ ((rest : List (List D)) × (e' : Error) × (host.patches pod
                  (erased_annotation hami ps mgr host rest)
                ≡ some e')
              × (r ≡ (
                err e,
                fx
                    ++ patch_pod_annotations pod (erased_annotation hami ps mgr host rest)
                      ∷ pod_allocation_failed ps.node_name pod node_lock_ascend
                      ∷ [],
              ))))

  put_first-local :
      (resp : ContainerAllocateResponse) (fx more : List Effect)
      (r : Result (Served hami ps mgr host))
      → AllLocal fx
      → AllLocal more
      → AllLocal (put_first hami ps mgr host (resp, fx) (r, more)).1
  put_first-local resp fx more (ok (resps, psd)) h k = AllLocal-append fx more h k
  put_first-local resp fx more (err e) h k = AllLocal-append fx more h k

  pub serve_requests-local :
      (pod : Pod) (infos : Dict RuntimeInfo) (reqs : List Request) (psd : List (List D))
      → AllLocal (serve_requests hami ps mgr host pod infos reqs psd).1
  unfolding serve_requests
  serve_requests-local pod infos [] psd = tt
  serve_requests-local pod infos (req ∷ reqs) psd =
      elim (Result-cases (serve_request hami ps mgr host pod infos req psd)) [
        | inr (e, p) ↦ rw (p, serve_requests) tt
        | inl (((resp, fx), mid), p) ↦
            let (name, devs, _, _, built) =
              serve_request-ok hami ps mgr host pod infos req psd mid (resp, fx) p in
            let later = serve_requests hami ps mgr host pod infos reqs mid in
            rw (p, serve_requests)
              (put_first-local resp fx later.1 later.0
                (build-local hami ps mgr host pod name devs infos resp fx built)
                (serve_requests-local pod infos reqs mid))
      ]

  -- After the requests: a failed one, or all served and then the patch.
  finish-served :
      (pod : Pod) (reqs : List Request) (infos : Dict RuntimeInfo) (psd : List (List D))
      → build_runtime_info_lookup hami ps mgr host pod ≡ ok infos
      → decode_device_annotations hami ps mgr host pod ≡ ok psd
      → (let r = finish hami ps mgr host pod (serve_requests hami ps mgr host pod infos reqs psd) in
          Succeeds pod reqs r ⊎ FailsWith pod r)
  unfolding finish patch_erased_annotation
  finish-served pod reqs infos psd i d =
      elim (serve_requests-cases hami ps mgr host pod infos reqs psd) [
        | inl (e, fx, p) ↦
            inr (e, fx, rw p at (serve_requests-local pod infos reqs psd), inl (rw p))
        | inr (resps, rest, fx, p, (served, front, all)) ↦
            elim (Option-cases (host.patches pod (erased_annotation hami ps mgr host rest))) [
              | inl fine ↦ inl (
                infos,
                psd,
                rest,
                served,
                resps,
                fx,
                i,
                d,
                front,
                all,
                fine,
                rw p (rw (fine, finish)),
              )
              | inr (e, refused) ↦ inr (
                wrap "erase allocated containers annotation" e,
                fx,
                rw p at (serve_requests-local pod infos reqs psd),
                inr (rest, e, refused, rw p (rw (refused, finish))),
              )
            ]
      ]

  pub allocate-finish :
      (pod : Pod) (reqs : List Request) (infos : Dict RuntimeInfo) (psd : List (List D))
      → build_runtime_info_lookup hami ps mgr host pod ≡ ok infos
      → decode_device_annotations hami ps mgr host pod ≡ ok psd
      → allocate hami ps mgr host (found pod) reqs
        ≡ finish hami ps mgr host pod (serve_requests hami ps mgr host pod infos reqs psd)
  unfolding allocate prepare
  allocate-finish pod reqs infos psd p q = rw (p, q, allocate_pod)

  -- Allocate, once the pod is found, either succeeds or fails in these ways. In particular the pod is
  -- reported exactly once, at the end, with the outcome that kubelet is answered.
  pub allocate-found :
      (pod : Pod) (reqs : List Request)
      → Succeeds pod reqs (allocate hami ps mgr host (found pod) reqs)
        ⊎ FailsWith pod (allocate hami ps mgr host (found pod) reqs)
  unfolding allocate prepare
  allocate-found pod reqs = elim (Result-cases (build_runtime_info_lookup hami ps mgr host pod)) [
    | inr (e, p) ↦ inr (
      wrap "build runtimeInfo lookup" e,
      [],
      tt,
      inl (rw (p, allocate_pod) (unfold finish in refl)),
    )
    | inl (infos, p) ↦ elim (Result-cases (decode_device_annotations hami ps mgr host pod)) [
      | inr (e, q) ↦ inr (
        wrap "decode device annotations" e,
        [],
        tt,
        inl (rw (p, q, allocate_pod) (unfold finish in refl)),
      )
      | inl (psd, q) ↦
          subst (λ r. Succeeds pod reqs r ⊎ FailsWith pod r)
            (sym (allocate-finish pod reqs infos psd p q)) (finish-served pod reqs infos psd p q)
    ]
  ]
