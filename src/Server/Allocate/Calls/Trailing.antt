-- ===== src/Server/Allocate/Calls/Trailing.antt =====
-- internal/server/server.go, Allocate: containers without devices at the end of the list change nothing, and
-- the loop over requests is the loop over the first of them and then over the others.
use mathlib.Core.List.{append_assoc}
use ascend_device_plugin.Base.{
  ℕ, zero, suc, String, ◌≡◌, refl, ap, ◌∙◌, List, [], ◌∷◌, ◌++◌, Option, none, some, Result, ok,
  err, Result-cases, Option-cases, Bool-cases, eqb, length, sym, inl, inr,
}
use ascend_device_plugin.Base.Dict.{Dict}
use ascend_device_plugin.Server.Plugin.{Manager, Pod, PluginServer, RuntimeInfo}
use ascend_device_plugin.Server.Allocate.Response.{
  ContainerAllocateResponse, Effect, Hami, Host, build_container_allocate_response,
}
use ascend_device_plugin.Server.Allocate.Pending.{behind, pop_from, pop_next_container_devices}
use ascend_device_plugin.Server.Allocate.Handler.{
  Request, Served, serve_container, serve_request, serve_requests, put_first,
}
use ascend_device_plugin.Server.Allocate.Calls.{empties}

module _ {D : Type 0} (k : ℕ) where
  abbrev trailing :
      Option (List D × String × List (List D)) → Option (List D × String × List (List D))
  trailing none = none
  trailing (some (devs, name, rest)) = some (devs, name, rest ++ empties k)

  behind-trailing :
      (x : List D) (o : Option (List D × String × List (List D)))
      → behind x (trailing o) ≡ trailing (behind x o)
  behind-trailing x none = refl
  behind-trailing x (some (devs, name, rest)) = refl

pop_from-empties : {D : Type 0} (pod : Pod) (i k : ℕ) → pop_from {D = D} pod i (empties k) ≡ none
unfolding pop_from
pop_from-empties pod i zero = refl
pop_from-empties pod i (suc k) = ap (behind []) (pop_from-empties pod (suc i) k)

pop_from-trailing :
    {D : Type 0} (pod : Pod) (k i : ℕ) (psd : List (List D))
    → pop_from pod i (psd ++ empties k) ≡ trailing k (pop_from pod i psd)
unfolding pop_from
pop_from-trailing pod k i [] = pop_from-empties pod i k
pop_from-trailing pod k i ([] ∷ rest) =
    ap (behind []) (pop_from-trailing pod k (suc i) rest)
    ∙ behind-trailing k [] (pop_from pod (suc i) rest)
pop_from-trailing pod k i ((dev ∷ devs) ∷ rest) = refl

module _ {D : Type 0} (hami : Hami D) (ps : PluginServer) (mgr : Manager) (host : Host) (pod : Pod)
    (infos : Dict RuntimeInfo) where
  abbrev pub Loop : Type 0
  Loop = Result (Served hami ps mgr host) × List Effect

  -- Responses and effects in front of those of the later requests.
  abbrev pub in_front : List ContainerAllocateResponse → List Effect → Loop → Loop
  in_front resps fx (err e, more) = (err e, fx ++ more)
  in_front resps fx (ok (later, rest), more) = (ok (resps ++ later, rest), fx ++ more)

  -- One loop, and with what it leaves another.
  abbrev pub chain : (List (List D) → Loop) → Loop → Loop
  chain later (err e, fx) = (err e, fx)
  chain later (ok (resps, mid), fx) = in_front resps fx (later mid)

  abbrev pub extended : ℕ → Loop → Loop
  extended k (err e, fx) = (err e, fx)
  extended k (ok (resps, rest), fx) = (ok (resps, rest ++ empties k), fx)

  abbrev Turned : Type 0
  Turned = Result ((ContainerAllocateResponse × List Effect) × List (List D))

  abbrev turned : ℕ → Turned → Turned
  turned k (err e) = err e
  turned k (ok (built, rest)) = ok (built, rest ++ empties k)

  serve_container-trailing :
      (k : ℕ) (req : Request) (devs : List D) (name : String) (rest : List (List D))
      → serve_container hami ps mgr host pod infos req devs name (rest ++ empties k)
        ≡ turned k (serve_container hami ps mgr host pod infos req devs name rest)
  unfolding serve_container
  serve_container-trailing k req devs name rest =
      elim (Bool-cases (eqb (length devs) (length req))) [
        | inl fits ↦
            rw (fits, serve_container)
              (elim (Result-cases
                (build_container_allocate_response hami ps mgr host pod name devs infos)) [
                  | inl (built, p) ↦ rw p refl
                  | inr (e, p) ↦ rw p refl
                ])
        | inr apart ↦ rw (apart, serve_container) refl
      ]

  serve_request-trailing :
      (k : ℕ) (req : Request) (psd : List (List D))
      → serve_request hami ps mgr host pod infos req (psd ++ empties k)
        ≡ turned k (serve_request hami ps mgr host pod infos req psd)
  unfolding serve_request pop_next_container_devices
  serve_request-trailing k req psd = elim (Option-cases (pop_from pod 0 psd)) [
    | inl none_left ↦ rw (pop_from-trailing pod k 0 psd, none_left, serve_request) refl
    | inr ((devs, name, rest), popped) ↦
        rw (pop_from-trailing pod k 0 psd, popped, serve_request)
          (serve_container-trailing k req devs name rest)
  ]

  put_first-extended :
      (k : ℕ) (built : ContainerAllocateResponse × List Effect) (r : Loop)
      → put_first hami ps mgr host built (extended k r)
        ≡ extended k (put_first hami ps mgr host built r)
  put_first-extended k (resp, fx) (err e, more) = refl
  put_first-extended k (resp, fx) (ok (resps, rest), more) = refl

  pub serve_requests-trailing :
      (k : ℕ) (reqs : List Request) (psd : List (List D))
      → serve_requests hami ps mgr host pod infos reqs (psd ++ empties k)
        ≡ extended k (serve_requests hami ps mgr host pod infos reqs psd)
  unfolding serve_requests
  serve_requests-trailing k [] psd = refl
  serve_requests-trailing k (req ∷ reqs) psd =
      elim (Result-cases (serve_request hami ps mgr host pod infos req psd)) [
        | inr (e, p) ↦ rw (serve_request-trailing k req psd, p, serve_requests) refl
        | inl ((built, mid), p) ↦
            rw (serve_request-trailing k req psd, p, serve_requests)
              (ap (put_first hami ps mgr host built) (serve_requests-trailing k reqs mid)
                ∙ put_first-extended k built (serve_requests hami ps mgr host pod infos reqs mid))
      ]

  put_first-in_front :
      (resp : ContainerAllocateResponse) (fx more : List Effect)
      (resps : List ContainerAllocateResponse) (r : Loop)
      → put_first hami ps mgr host (resp, fx) (in_front resps more r)
        ≡ in_front (resp ∷ resps) (fx ++ more) r
  put_first-in_front resp fx more resps (err e, later) =
      ap (λ x. (err e, x)) (sym (append_assoc fx more later))
  put_first-in_front resp fx more resps (ok (others, rest), later) =
      ap (λ x. (ok (resp ∷ (resps ++ others), rest), x)) (sym (append_assoc fx more later))

  put_first-chain :
      (later : List (List D) → Loop) (built : ContainerAllocateResponse × List Effect) (r : Loop)
      → put_first hami ps mgr host built (chain later r)
        ≡ chain later (put_first hami ps mgr host built r)
  put_first-chain later (resp, fx) (err e, more) = refl
  put_first-chain later (resp, fx) (ok (resps, mid), more) =
      put_first-in_front resp fx more resps (later mid)

  in_front-nothing : (r : Loop) → r ≡ in_front [] [] r
  in_front-nothing (err e, fx) = refl
  in_front-nothing (ok (resps, rest), fx) = refl

  pub serve_requests-append :
      (xs ys : List Request) (psd : List (List D))
      → serve_requests hami ps mgr host pod infos (xs ++ ys) psd
        ≡ chain
            (serve_requests hami ps mgr host pod infos ys)
            (serve_requests hami ps mgr host pod infos xs psd)
  unfolding serve_requests
  serve_requests-append [] ys psd =
      in_front-nothing (serve_requests hami ps mgr host pod infos ys psd)
  serve_requests-append (req ∷ xs) ys psd =
      elim (Result-cases (serve_request hami ps mgr host pod infos req psd)) [
        | inr (e, p) ↦ rw (p, serve_requests) refl
        | inl ((built, mid), p) ↦
            rw (p, serve_requests)
              (ap (put_first hami ps mgr host built) (serve_requests-append xs ys mid)
                ∙ put_first-chain (serve_requests hami ps mgr host pod infos ys) built
                    (serve_requests hami ps mgr host pod infos xs mid))
      ]
