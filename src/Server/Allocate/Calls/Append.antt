-- ===== src/Server/Allocate/Calls/Append.antt =====
-- internal/server/server.go, Allocate: two calls for a pod, the second on the pod as the first left it,
-- against one call with the requests of both.
use ascend_device_plugin.Base.{
  ℕ, String, ◌≡◌, refl, sym, subst, ap, ◌∙◌, List, ◌++◌, none, ok, err, >>=-eq-ok, arith,
}
use ascend_device_plugin.Base.Dict.{Dict}
use ascend_device_plugin.Server.Plugin.{Manager, Pod, PluginServer, RuntimeInfo}
use ascend_device_plugin.Server.Allocate.Response.{ContainerAllocateResponse, Effect, Hami, Host}
use ascend_device_plugin.Server.Allocate.Handler.{
  Request, serve_requests, decode_device_annotations, updated,
}
use ascend_device_plugin.Server.Allocate.Calls.{empties, IsKeyed, IsCodec}
use ascend_device_plugin.Server.Allocate.Calls.Same.{
  build_runtime_info_lookup-next, serve_requests-next,
}
use ascend_device_plugin.Server.Allocate.Calls.Trailing.{
  Loop, in_front, chain, extended, serve_requests-trailing, serve_requests-append,
}
use ascend_device_plugin.Server.Allocate.Calls.Split.{Serves}

module _ {D : Type 0} (hami : Hami D) (ps : PluginServer) (mgr : Manager) (host : Host)
    (accepted : (pod : Pod) (annos : Dict String) → host.patches pod annos ≡ none)
    (keyed : IsKeyed ps host) (codec : IsCodec hami host) where
  decode-next :
      (pod : Pod) (psd rest : List (List D))
      → decode_device_annotations hami ps mgr host pod ≡ ok psd
      → (k : ℕ) × (decode_device_annotations hami ps mgr host (updated hami ps mgr host pod rest)
          ≡ ok (rest ++ empties k))
  unfolding decode_device_annotations
  decode-next pod psd rest h =
      let (devices, p, _) =
        >>=-eq-ok (hami.decode_pod_devices host.in_request_devices pod.annotations) _ h in
      let (devices', k, q, l) =
        codec.read pod.annotations devices ps.common_word ps.to_alloc_device_anno rest p
          keyed.requested in
      (k, rw (q, l, decode_device_annotations) refl)

  extended-eq-ok :
      (pod : Pod) (infos : Dict RuntimeInfo) (k : ℕ) (l : Loop hami ps mgr host pod infos)
      (resps : List ContainerAllocateResponse) (rest' : List (List D)) (fx : List Effect)
      → extended hami ps mgr host pod infos k l ≡ (ok (resps, rest'), fx)
      → (rest : List (List D)) × (l ≡ (ok (resps, rest), fx))
  extended-eq-ok pod infos k (err e, gx) resps rest' fx h = absurd (cc)
  extended-eq-ok pod infos k (ok (r, rest), gx) resps rest' fx h = (rest, ground arith)

  -- The requests of the second call, on the list that it decodes and on the one that the first left.
  later-run :
      (pod : Pod) (infos : Dict RuntimeInfo) (ys : List Request) (k : ℕ) (mid : List (List D))
      → serve_requests hami ps mgr host
          (updated hami ps mgr host pod mid)
          infos
          ys
          (mid ++ empties k)
        ≡ extended hami ps mgr host pod infos k (serve_requests hami ps mgr host pod infos ys mid)
  later-run pod infos ys k mid =
      serve_requests-next hami ps mgr host keyed (hami.encode_pod_single_device mid) pod infos ys
        (mid ++ empties k)
      ∙ serve_requests-trailing hami ps mgr host pod infos k ys mid

  -- Two calls, the second on the pod as the first left it, against one.
  pub Serves-append :
      (pod : Pod) (xs ys : List Request) (now later : List ContainerAllocateResponse)
      (mid rest : List (List D))
      → Serves hami ps mgr host pod xs now mid
      → Serves hami ps mgr host (updated hami ps mgr host pod mid) ys later rest
      → (rest' : List (List D)) × Serves hami ps mgr host pod (xs ++ ys) (now ++ later) rest'
  Serves-append pod xs ys now later mid rest (infos, psd, fx, i, d, s)
        (infos', psd', gx, i', d', t) =
      let (k, q) = decode-next pod psd mid d in
      let same_infos : infos' ≡ infos = cc (
        build_runtime_info_lookup-next hami ps mgr host keyed (hami.encode_pod_single_device mid)
          pod) in
      let same_psd : psd' ≡ mid ++ empties k = cc in
      let run : serve_requests hami ps mgr host (updated hami ps mgr host pod mid) infos ys
            (mid ++ empties k)
          ≡ (ok (later, rest), gx) =
        subst
          (λ x.
            serve_requests hami ps mgr host (updated hami ps mgr host pod mid) x ys
              (mid ++ empties k)
            ≡ (ok (later, rest), gx))
          same_infos
          (subst
            (λ x.
              serve_requests hami ps mgr host (updated hami ps mgr host pod mid) infos' ys x
              ≡ (ok (later, rest), gx))
            same_psd t) in
      let (rest', l) =
        extended-eq-ok pod infos k _ later rest gx (sym (later-run pod infos ys k mid) ∙ run) in
      (
        rest',
        (
          infos,
          psd,
          fx ++ gx,
          i,
          d,
          serve_requests-append hami ps mgr host pod infos xs ys psd
              ∙ ap (chain hami ps mgr host pod infos (serve_requests hami ps mgr host pod infos ys))
                  s
              ∙ ap (in_front hami ps mgr host pod infos now fx) l,
        ),
      )

  in_front-eq-ok :
      (pod : Pod) (infos : Dict RuntimeInfo) (now : List ContainerAllocateResponse)
      (gx : List Effect) (r : Loop hami ps mgr host pod infos)
      (all : List ContainerAllocateResponse) (rest : List (List D)) (fx : List Effect)
      → in_front hami ps mgr host pod infos now gx r ≡ (ok (all, rest), fx)
      → (more : List ContainerAllocateResponse) × (hx : List Effect) × (r ≡ (ok (more, rest), hx))
        × (all ≡ now ++ more)
  in_front-eq-ok pod infos now gx (err e, hx) all rest fx h = absurd (cc)
  in_front-eq-ok pod infos now gx (ok (more, left), hx) all rest fx h =
      (more, hx, ground arith, ground arith)

  -- Of a loop that succeeds on `xs ++ ys`: what it has after `xs`, and what it adds.
  chain-eq-ok :
      (pod : Pod) (infos : Dict RuntimeInfo)
      (later : List (List D) → Loop hami ps mgr host pod infos)
      (l : Loop hami ps mgr host pod infos) (all : List ContainerAllocateResponse)
      (rest : List (List D)) (fx : List Effect)
      → chain hami ps mgr host pod infos later l ≡ (ok (all, rest), fx)
      → (now : List ContainerAllocateResponse) × (mid : List (List D)) × (gx : List Effect)
        × (more : List ContainerAllocateResponse) × (hx : List Effect) × (l ≡ (ok (now, mid), gx))
        × (later mid ≡ (ok (more, rest), hx))
        × (all ≡ now ++ more)
  chain-eq-ok pod infos later (err e, gx) all rest fx h = absurd (cc)
  chain-eq-ok pod infos later (ok (now, mid), gx) all rest fx h =
      let (more, hx, p, e) = in_front-eq-ok pod infos now gx (later mid) all rest fx h in
      (now, mid, gx, more, hx, refl, p, e)

  pub append-Serves :
      (pod : Pod) (xs ys : List Request) (all : List ContainerAllocateResponse)
      (rest : List (List D))
      → Serves hami ps mgr host pod (xs ++ ys) all rest
      → (now : List ContainerAllocateResponse) × (later : List ContainerAllocateResponse)
        × (mid : List (List D)) × (rest' : List (List D)) × Serves hami ps mgr host pod xs now mid
        × Serves hami ps mgr host (updated hami ps mgr host pod mid) ys later rest'
        × (all ≡ now ++ later)
  append-Serves pod xs ys all rest (infos, psd, fx, i, d, s) =
      let (now, mid, gx, later, hx, p, q, e) =
        chain-eq-ok pod infos (serve_requests hami ps mgr host pod infos ys)
          (serve_requests hami ps mgr host pod infos xs psd) all rest fx
          (sym (serve_requests-append hami ps mgr host pod infos xs ys psd) ∙ s) in
      let (k, d') = decode-next pod psd mid d in
      let lookup_same =
        build_runtime_info_lookup-next hami ps mgr host keyed (hami.encode_pod_single_device mid)
          pod in
      (
        now,
        later,
        mid,
        rest ++ empties k,
        (infos, psd, gx, i, d, p),
        (
          infos,
          mid ++ empties k,
          hx,
          lookup_same ∙ i,
          d',
          later-run pod infos ys k mid ∙ ap (extended hami ps mgr host pod infos k) q,
        ),
        e,
      )
