-- ===== src/Server/Allocate/Calls/Same.antt =====
-- internal/server/server.go, Allocate: of the pod's annotations, only the one that it writes itself differs
-- for the next call, and of that only the decoded devices are used.
use ascend_device_plugin.Base.{
  ℕ, suc, String, ◌==◌, ◌||◌, ◌&&◌, ◌≡◌, refl, ap, ◌∙◌, List, [], ◌∷◌, Option, none, some, Result,
  ok, err, ◌>>=◌, or_fail, Error, wrap, message, ℤ, Result-cases, inl, inr,
}
use ascend_device_plugin.Base.Dict.{Dict, insert, lookup-insert_other}
use ascend_device_plugin.Server.Plugin.{
  Manager, Pod, PluginServer, RuntimeInfo, vnpu_mode_hami_core,
}
use ascend_device_plugin.Server.Allocate.Response.{
  Hami, Host, Gathered, effective_hami_core, respond, respond_to, gather, nothing_gathered,
  build_container_allocate_response,
}
use ascend_device_plugin.Server.Allocate.Pending.{
  behind, ctr_name_at, pop_from, pop_next_container_devices,
}
use ascend_device_plugin.Server.Allocate.Handler.{
  Request, serve_container, serve_request, serve_requests, put_first, build_runtime_info_lookup,
}
use ascend_device_plugin.Server.Allocate.Calls.{IsKeyed}

-- A chain with another continuation that gives the same.
bind-same :
    {A B : Type 0} {f g : A → Result B} (r : Result A)
    → ((a : A) → f a ≡ g a)
    → (r >>= f) ≡ (r >>= g)
bind-same (err e) h = refl
bind-same (ok a) h = h a

-- The pod with a value under a key of its annotations.
abbrev pub marked : String → String → Pod → Pod
marked key value pod = record pod { annotations = insert key value pod.annotations }

pop_from-marked :
    {D : Type 0} (key value : String) (pod : Pod) (i : ℕ) (psd : List (List D))
    → pop_from (marked key value pod) i psd ≡ pop_from pod i psd
unfolding pop_from ctr_name_at
pop_from-marked key value pod i [] = refl
pop_from-marked key value pod i ([] ∷ rest) =
    ap (behind []) (pop_from-marked key value pod (suc i) rest)
pop_from-marked key value pod i ((dev ∷ devs) ∷ rest) = refl

module _ {D : Type 0} (hami : Hami D) (ps : PluginServer) (mgr : Manager) (host : Host)
    (keyed : IsKeyed ps host) (value : String) (pod : Pod) where
  abbrev next : Pod
  next = marked ps.to_alloc_device_anno value pod

  effective_hami_core-next : effective_hami_core mgr next ≡ effective_hami_core mgr pod
  unfolding effective_hami_core
  effective_hami_core-next =
      ap
        (λ (o : Option String).
          let mode : String = elim o [ none ↦ "" | some v ↦ v ] in
          mode == vnpu_mode_hami_core || (mode == "" && mgr.is_hami_vnpu_core))
        (lookup-insert_other value pod.annotations keyed.mode)

  respond-next :
      (ctr_name : String) (first : ℤ) (others : List ℤ) (g : Gathered)
      → respond mgr host next ctr_name first others g ≡ respond mgr host pod ctr_name first others g
  unfolding respond
  respond-next ctr_name first others g = rw (effective_hami_core-next, respond) refl

  respond_to-next :
      (ctr_name : String) (g : Gathered)
      → respond_to ps mgr host next ctr_name g ≡ respond_to ps mgr host pod ctr_name g
  unfolding respond_to
  respond_to-next ctr_name g =
      elim g.ids
        as (λ ids.
          respond_to ps mgr host next ctr_name (record g { ids = ids })
          ≡ respond_to ps mgr host pod ctr_name (record g { ids = ids })) [
            | [] ↦ refl
            | first ∷ others ↦
                ap ok (respond-next ctr_name first others (record g { ids = first ∷ others }))
          ]

  pub build_runtime_info_lookup-next :
      build_runtime_info_lookup hami ps mgr host next
      ≡ build_runtime_info_lookup hami ps mgr host pod
  unfolding build_runtime_info_lookup
  build_runtime_info_lookup-next = rw (lookup-insert_other value pod.annotations keyed.alloc) refl

  build-next :
      (ctr_name : String) (devs : List D) (infos : Dict RuntimeInfo)
      → build_container_allocate_response hami ps mgr host next ctr_name devs infos
        ≡ build_container_allocate_response hami ps mgr host pod ctr_name devs infos
  unfolding build_container_allocate_response
  build-next ctr_name devs infos =
      bind-same (gather hami.uuid mgr infos devs nothing_gathered) (respond_to-next ctr_name)

  serve_container-next :
      (infos : Dict RuntimeInfo) (req : Request) (devs : List D) (name : String)
      (rest : List (List D))
      → serve_container hami ps mgr host next infos req devs name rest
        ≡ serve_container hami ps mgr host pod infos req devs name rest
  unfolding serve_container
  serve_container-next infos req devs name rest = rw (build-next name devs infos) refl

  serve_request-next :
      (infos : Dict RuntimeInfo) (req : Request) (psd : List (List D))
      → serve_request hami ps mgr host next infos req psd
        ≡ serve_request hami ps mgr host pod infos req psd
  unfolding serve_request pop_next_container_devices
  serve_request-next infos req psd =
      ap
        (λ o. or_fail none_left o >>= (λ (devs, name, rest).
          serve_container hami ps mgr host next infos req devs name rest))
        (pop_from-marked ps.to_alloc_device_anno value pod 0 psd)
      ∙ bind-same (or_fail none_left (pop_from pod 0 psd))
          (λ (devs, name, rest). serve_container-next infos req devs name rest)
    where
      none_left : Error
      none_left = wrap "get next container devices" (message "no pending device allocation found")

  pub serve_requests-next :
      (infos : Dict RuntimeInfo) (reqs : List Request) (psd : List (List D))
      → serve_requests hami ps mgr host next infos reqs psd
        ≡ serve_requests hami ps mgr host pod infos reqs psd
  unfolding serve_requests
  serve_requests-next infos [] psd = refl
  serve_requests-next infos (req ∷ reqs) psd =
      elim (Result-cases (serve_request hami ps mgr host pod infos req psd)) [
        | inr (e, p) ↦ rw (serve_request-next infos req psd ∙ p, p, serve_requests) refl
        | inl ((built, rest), p) ↦
            rw (serve_request-next infos req psd ∙ p, p, serve_requests)
              (ap (put_first hami ps mgr host built) (serve_requests-next infos reqs rest))
      ]
