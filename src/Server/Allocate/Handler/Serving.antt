-- ===== src/Server/Allocate/Handler/Serving.antt =====
-- internal/server/server.go, Allocate: the loop over the requests against the queue of waiting containers.
use ascend_device_plugin.Base.{
  String, ◌≡◌, refl, ap, ◌∙◌, ◌⊎◌, inl, inr, List, [], ◌∷◌, ◌++◌, some, ok, err, Error,
  Result-cases, length, arith,
}
use ascend_device_plugin.Base.Dict.{Dict}
use ascend_device_plugin.Server.Plugin.{Manager, Pod, PluginServer, RuntimeInfo}
use ascend_device_plugin.Server.Allocate.Response.{
  ContainerAllocateResponse, Effect, Hami, Host, build_container_allocate_response,
}
use ascend_device_plugin.Server.Allocate.Pending.{pop_next_container_devices}
use ascend_device_plugin.Server.Allocate.Pending.Queue.{pending, pop_next_container_devices-Pops}
use ascend_device_plugin.Server.Allocate.Handler.{
  Request, serve_container, serve_request, serve_requests,
}

module _ {D : Type 0} (hami : Hami D) (ps : PluginServer) (mgr : Manager) (host : Host) (pod : Pod)
    (infos : Dict RuntimeInfo) where
  -- Each request meets the container at the same place, asks for as many devices as it has, and gets the
  -- response built for it; the effects follow in order.
  pub data Serves
      : List Request
        → List (String × List D)
        → List ContainerAllocateResponse
        → List Effect
        → Type 0 where
    nothing : Serves [] [] [] []
    serve :
        {reqs : List Request} {queue : List (String × List D)}
        {resps : List ContainerAllocateResponse} {more : List Effect} (req : Request)
        (name : String) (devs : List D) (resp : ContainerAllocateResponse) (fx : List Effect)
        → length devs ≡ length req
        → build_container_allocate_response hami ps mgr host pod name devs infos ≡ ok (resp, fx)
        → Serves reqs queue resps more
        → Serves (req ∷ reqs) ((name, devs) ∷ queue) (resp ∷ resps) (fx ++ more)

  abbrev pub Turn :
      Request → List (List D) → ContainerAllocateResponse × List Effect → List (List D) → Type 0
  Turn req psd built rest =
      (name : String) × (devs : List D) × (pending pod psd ≡ (name, devs) ∷ pending pod rest)
      × (length devs ≡ length req)
      × (build_container_allocate_response hami ps mgr host pod name devs infos ≡ ok built)

  serve_container-ok :
      (req : Request) (devs : List D) (name : String) (rest rest' : List (List D))
      (built : ContainerAllocateResponse × List Effect)
      → serve_container hami ps mgr host pod infos req devs name rest ≡ ok (built, rest')
      → (length devs ≡ length req)
        × (build_container_allocate_response hami ps mgr host pod name devs infos ≡ ok built)
        × (rest ≡ rest')
  unfolding serve_container
  serve_container-ok req devs name rest rest' built h = ground arith

  pub serve_request-ok :
      (req : Request) (psd rest : List (List D)) (built : ContainerAllocateResponse × List Effect)
      → serve_request hami ps mgr host pod infos req psd ≡ ok (built, rest)
      → Turn req psd built rest
  unfolding serve_request
  serve_request-ok req psd rest built h = elim (pop_next_container_devices-Pops pod psd) [
    | inl (e, p) ↦ ground arith
    | inr (devs, name, rest', p, e, l) ↦
        let (len, b, same) = serve_container-ok req devs name rest' rest built (rw p at h) in
        (name, devs, e ∙ ap (λ r. (name, devs) ∷ pending pod r) same, len, b)
  ]

  abbrev pub Done :
      List Request
      → List (List D)
      → List ContainerAllocateResponse
      → List (List D)
      → List Effect
      → Type 0
  Done reqs psd resps rest fx =
      (served : List (String × List D)) × (pending pod psd ≡ served ++ pending pod rest)
      × Serves reqs served resps fx

  -- Either some request fails, or all are served from the front of the queue, one container each, and the
  -- queue that is left is the rest.
  pub serve_requests-cases :
      (reqs : List Request) (psd : List (List D))
      → ((e : Error) × (fx : List Effect) × (serve_requests hami ps mgr host pod infos reqs psd
            ≡ (err e, fx)))
        ⊎ ((resps : List ContainerAllocateResponse) × (rest : List (List D)) × (fx : List Effect)
            × (serve_requests hami ps mgr host pod infos reqs psd ≡ (ok (resps, rest), fx))
            × Done reqs psd resps rest fx)
  unfolding serve_requests
  serve_requests-cases [] psd = inr ([], psd, [], refl, ([], refl, nothing))
  serve_requests-cases (req ∷ reqs) psd =
      elim (Result-cases (serve_request hami ps mgr host pod infos req psd)) [
        | inr (e, p) ↦ inl (e, [], rw (p, serve_requests))
        | inl (((resp, now), mid), p) ↦
            let (name, devs, front, len, built) = serve_request-ok req psd mid (resp, now) p in
            elim (serve_requests-cases reqs mid) [
              | inl (e, more, q) ↦ inl (e, now ++ more, rw (p, serve_requests) (rw q))
              | inr (resps, rest, more, q, (served, eq, all)) ↦ inr (
                resp ∷ resps,
                rest,
                now ++ more,
                rw (p, serve_requests) (rw q),
                (
                  (name, devs) ∷ served,
                  front ∙ ap (◌∷◌ (name, devs)) eq,
                  serve req name devs resp now len built all,
                ),
              )
            ]
      ]

  serve_request-of :
      (req : Request) (psd mid : List (List D)) (name : String) (devs : List D)
      (built : ContainerAllocateResponse × List Effect)
      → pop_next_container_devices pod psd ≡ some (devs, name, mid)
      → length devs ≡ length req
      → build_container_allocate_response hami ps mgr host pod name devs infos ≡ ok built
      → serve_request hami ps mgr host pod infos req psd ≡ ok (built, mid)
  unfolding serve_request serve_container
  serve_request-of req psd mid name devs built p len b = ground arith

  -- Whenever the waiting containers in front fit the requests, they are served: nothing else can fail.
  pub Serves-serve_requests :
      {reqs : List Request} {served : List (String × List D)}
      {resps : List ContainerAllocateResponse} {fx : List Effect} (psd : List (List D))
      (queue : List (String × List D))
      → Serves reqs served resps fx
      → pending pod psd ≡ served ++ queue
      → (rest : List (List D)) × (serve_requests hami ps mgr host pod infos reqs psd
          ≡ (ok (resps, rest), fx))
        × (pending pod rest ≡ queue)
  unfolding serve_requests
  Serves-serve_requests psd queue nothing eq = (psd, refl, eq)
  Serves-serve_requests psd queue (serve req name devs resp fx len built all) eq =
      elim (pop_next_container_devices-Pops pod psd) [
        | inl (nil, p) ↦ ground arith
        | inr (devs', name', mid, p, front, l) ↦
            let popped : pop_next_container_devices pod psd ≡ some (devs, name, mid) =
              ground arith in
            let (rest, q, view) = Serves-serve_requests mid queue all (ground arith) in
            (
              rest,
              rw
                  (
                    serve_request-of req psd mid name devs (resp, fx) popped len built,
                    serve_requests,
                  )
                  (rw q),
              view,
            )
      ]
