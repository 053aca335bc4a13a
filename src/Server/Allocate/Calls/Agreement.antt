-- ===== src/Server/Allocate/Calls/Agreement.antt =====
-- internal/server/server.go, Allocate: several calls for a pod against one call with all their requests.
use mathlib.Core.List.{append-nil}
use ascend_device_plugin.Base.{
  String, ◌≡◌, ◌↔◌, refl, sym, subst, ap, ◌∙◌, inl, inr, List, [], ◌∷◌, ◌++◌, none, ok, ◌>>=◌,
  >>=-eq-ok, ok-eq-ok,
}
use ascend_device_plugin.Base.Dict.{Dict}
use ascend_device_plugin.Server.Plugin.{Manager, Pod, PluginServer}
use ascend_device_plugin.Server.Allocate.Response.{ContainerAllocateResponse, Hami, Host}
use ascend_device_plugin.Server.Allocate.Handler.{Request, found, updated, allocate}
use ascend_device_plugin.Server.Allocate.Calls.{
  Answer, and_later, flatten, IsKeyed, IsCodec, allocate_calls,
}
use ascend_device_plugin.Server.Allocate.Calls.Split.{Serves, Serves-Answers, allocate-cases}
use ascend_device_plugin.Server.Allocate.Calls.Append.{Serves-append, append-Serves}

module _ {D : Type 0} (hami : Hami D) (ps : PluginServer) (mgr : Manager) (host : Host)
    (accepted : (pod : Pod) (annos : Dict String) → host.patches pod annos ≡ none)
    (keyed : IsKeyed ps host) (codec : IsCodec hami host) where
  abbrev IsServed : Pod → List Request → List ContainerAllocateResponse → Type 0
  IsServed pod reqs resps = (rest : List (List D)) × Serves hami ps mgr host pod reqs resps rest

  answer : (pod : Pod) (reqs : List Request) → Answer
  answer pod reqs = (allocate hami ps mgr host (found pod) reqs).0

  answer-IsServed :
      (pod : Pod) (reqs : List Request) (resps : List ContainerAllocateResponse)
      → answer pod reqs ≡ ok resps
      → IsServed pod reqs resps
  unfolding answer
  answer-IsServed pod reqs resps h = elim (allocate-cases hami ps mgr host pod reqs) [
    | inr (e, fx, p) ↦ absurd (cc)
    | inl (resps', rest, serves) ↦
        let (fx, p, _) =
          Serves-Answers hami ps mgr host pod reqs resps' rest (accepted pod) serves in
        let same : resps' ≡ resps = cc in subst (IsServed pod reqs) same (rest, serves)
  ]

  -- What the calls from a first one on answer, by what it is answered.
  calls-first :
      (pod : Pod) (reqs : List Request) (later : List (List Request))
      (now : List ContainerAllocateResponse) (mid : List (List D))
      → Serves hami ps mgr host pod reqs now mid
      → allocate_calls hami ps mgr host pod (reqs ∷ later) ≡ (
          allocate_calls hami ps mgr host (updated hami ps mgr host pod mid) later >>= λ more.
          ok (now ++ more))
  unfolding allocate_calls
  calls-first pod reqs later now mid serves =
      let (fx, p, r) = Serves-Answers hami ps mgr host pod reqs now mid (accepted pod) serves in
      rw (p, allocate_calls) (rw (r, and_later) refl)

  calls-IsServed :
      (later : List (List Request)) (pod : Pod) (reqs : List Request)
      (resps : List ContainerAllocateResponse)
      → allocate_calls hami ps mgr host pod (reqs ∷ later) ≡ ok resps
      → IsServed pod (flatten (reqs ∷ later)) resps
  unfolding allocate_calls
  calls-IsServed [] pod reqs resps h = elim (allocate-cases hami ps mgr host pod reqs) [
    | inr (e, fx, p) ↦ absurd (cc)
    | inl (now, mid, serves) ↦
        let same : now ++ [] ≡ resps =
          ok-eq-ok (sym (calls-first pod reqs [] now mid serves) ∙ h) in
        let all : IsServed pod reqs resps =
          subst (IsServed pod reqs) (sym (append-nil now) ∙ same) (mid, serves) in
        subst (λ l. IsServed pod l resps) (sym (append-nil reqs)) all
  ]
  calls-IsServed (next ∷ later) pod reqs resps h = elim (allocate-cases hami ps mgr host pod reqs) [
    | inr (e, fx, p) ↦ absurd (cc)
    | inl (now, mid, serves) ↦
        let after = updated hami ps mgr host pod mid in
        let (more, p, e) =
          >>=-eq-ok (allocate_calls hami ps mgr host after (next ∷ later))
            (λ more. ok (now ++ more))
            (sym (calls-first pod reqs (next ∷ later) now mid serves) ∙ h) in
        let (rest, others) = calls-IsServed later after next more p in
        subst (IsServed pod (reqs ++ flatten (next ∷ later))) (ok-eq-ok e) (
          Serves-append hami ps mgr host accepted keyed codec pod reqs (flatten (next ∷ later)) now
            more mid rest serves others)
  ]

  IsServed-calls :
      (later : List (List Request)) (pod : Pod) (reqs : List Request)
      (resps : List ContainerAllocateResponse) (rest : List (List D))
      → Serves hami ps mgr host pod (flatten (reqs ∷ later)) resps rest
      → allocate_calls hami ps mgr host pod (reqs ∷ later) ≡ ok resps
  unfolding allocate_calls
  IsServed-calls [] pod reqs resps rest serves =
      calls-first pod reqs [] resps rest
        (subst (λ l. Serves hami ps mgr host pod l resps rest) (append-nil reqs) serves)
      ∙ ap ok (append-nil resps)
  IsServed-calls (next ∷ later) pod reqs resps rest serves =
      let (now, more, mid, rest', first, others, e) =
        append-Serves hami ps mgr host accepted keyed codec pod reqs (flatten (next ∷ later)) resps
          rest serves in
      calls-first pod reqs (next ∷ later) now mid first
      ∙ rw (IsServed-calls later (updated hami ps mgr host pod mid) next more rest' others)
          (ap ok (sym e))

  -- However kubelet divides the requests for a pod into calls of Allocate: where no patch of annotations is
  -- refused, the keys are those of NewPluginServer and HAMi reads back what it wrote, the calls answer all
  -- together what one call with all the requests in the same order answers, and succeed where it does.
  pub allocate_calls-allocate :
      (pod : Pod) (reqs : List Request) (later : List (List Request))
      (resps : List ContainerAllocateResponse)
      → (allocate_calls hami ps mgr host pod (reqs ∷ later) ≡ ok resps)
        ↔ ((allocate hami ps mgr host (found pod) (flatten (reqs ∷ later))).0 ≡ ok resps)
  unfolding answer
  allocate_calls-allocate pod reqs later resps = (
    λ h.
        let (rest, serves) = calls-IsServed later pod reqs resps h in
        let (fx, p, _) =
          Serves-Answers hami ps mgr host pod (flatten (reqs ∷ later)) resps rest (accepted pod)
            serves in
        ap (λ x. x.0) p,
    λ h.
        let (rest, serves) = answer-IsServed pod (flatten (reqs ∷ later)) resps h in
        IsServed-calls later pod reqs resps rest serves,
  )
