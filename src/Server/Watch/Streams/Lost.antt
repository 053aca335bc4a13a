-- ===== src/Server/Watch/Streams/Lost.antt =====
-- internal/server: an update that one stream takes is not sent to the others, and not sent again.
use ascend_device_plugin.Base.{
  ℕ, zero, suc, String, ◌≡◌, ◌≢◌, refl, sym, ap, ◌∙◌, inl, inr, List, [], ◌∷◌, ◌++◌, some, returns,
  get_elem?, set,
}
use ascend_device_plugin.Manager.Driver.{DeviceInterface}
use ascend_device_plugin.Manager.State.{Device}
use ascend_device_plugin.Server.Publish.{fingerprint}
use ascend_device_plugin.Server.Register.{Cluster, NodeEffect}
use ascend_device_plugin.Server.Watch.{Watching, accepted, timed_out, Next, tick}
use ascend_device_plugin.Server.Watch.Streams.{
  Handlers, listen, seen, with_streams, Step, listens, taken, untaken,
}
use ascend_device_plugin.Server.Watch.Streams.Changed.{tick-Changes, set-same}

module _ {ℓ} {A : Type ℓ} where
  get_elem?-set_other :
      (xs : List A) (i j : ℕ) (v : A) → i ≢ j → get_elem? (set xs i v) j ≡ get_elem? xs j
  get_elem?-set_other [] i j v h = refl
  get_elem?-set_other (x ∷ xs) zero zero v h = absurd (h refl)
  get_elem?-set_other (x ∷ xs) zero (suc j) v h = refl
  get_elem?-set_other (x ∷ xs) (suc i) zero v h = refl
  get_elem?-set_other (x ∷ xs) (suc i) (suc j) v h =
      get_elem?-set_other xs i j v (λ e. h (ap suc e))

  get_elem?-append_left :
      (xs ys : List A) (j : ℕ) (x : A) → get_elem? xs j ≡ some x → get_elem? (xs ++ ys) j ≡ some x
  get_elem?-append_left [] ys j x h = absurd (cc)
  get_elem?-append_left (y ∷ xs) ys zero x h = h
  get_elem?-append_left (y ∷ xs) ys (suc j) x h = get_elem?-append_left xs ys j x h

module _ {W : Type 0} (d : DeviceInterface W) where
  -- Any steps, after each of which the cached devices have the given fingerprint.
  pub data Quiet (print : String) (s : Handlers) : Handlers → Type 0 where
    nothing : Quiet print s s
    more :
        {t u : Handlers}
        → Quiet print s t
        → Step d t u
        → fingerprint u.manager.devs ≡ print
        → Quiet print s u

  -- The fingerprint is recorded, and the stream was sent these devices last.
  abbrev pub Holds : String → ℕ → List Device → Handlers → Type 0
  Holds print j told s =
      (s.server.last_published_devices ≡ print) × (get_elem? s.streams j ≡ some told)

  Step-Holds :
      {s t : Handlers} (print : String) (j : ℕ) (x : List Device)
      → Step d s t
      → fingerprint t.manager.devs ≡ print
      → Holds print j x s
      → Holds print j x t
  unfolding listen
  Step-Holds {s} print j x listens h (p, e) = (p, get_elem?-append_left s.streams _ j x e)
  Step-Holds {s} print j x (taken i told u w cluster next fx at ran) h (p, e) =
      elim (tick-Changes d w cluster accepted (seen told s) u next fx ran) [
        | inl (same_told, same_server) ↦ (
          ap (λ q. q.last_published_devices) same_server ∙ p,
          ap (λ l. get_elem? l j) (ap (set s.streams i) same_told ∙ set-same s.streams i told at)
              ∙ e,
        )
        | inr (_, _, _, other) ↦ absurd (other (h ∙ sym p))
      ]
  Step-Holds {s} print j x (untaken u w cluster next fx ran) h (p, e) =
      elim (tick-Changes d w cluster timed_out (seen [] s) u next fx ran) [
        | inl (_, same_server) ↦ (ap (λ q. q.last_published_devices) same_server ∙ p, e)
        | inr (never, _, _, _) ↦ absurd (cc)
      ]

  Quiet-Holds :
      (print : String) (j : ℕ) (x : List Device) {s t : Handlers}
      → Holds print j x s
      → Quiet print s t
      → Holds print j x t
  Quiet-Holds print j x holds nothing = holds
  Quiet-Holds print j x holds (more quiet step h) =
      Step-Holds print j x step h (Quiet-Holds print j x holds quiet)

  -- Where a round records the fingerprint of the devices and its handler, if any update was sent, was that
  -- of stream `i`, any other stream keeps what it was sent before: over all later steps after which the
  -- devices have the same fingerprint, the update stays recorded as published and stream `j` is not sent it.
  pub lost_update :
      (s : Handlers) (i j : ℕ) (told stale : List Device) (u : Watching) (w : W) (cluster : Cluster)
      (next : Next) (fx : List NodeEffect) (t : Handlers)
      → get_elem? s.streams i ≡ some told
      → get_elem? s.streams j ≡ some stale
      → i ≢ j
      → tick d w cluster accepted (seen told s) ≡ returns (next, fx, u)
      → u.server.last_published_devices ≡ fingerprint u.manager.devs
      → Quiet (fingerprint u.manager.devs) (with_streams u (set s.streams i u.told)) t
      → (t.server.last_published_devices ≡ fingerprint u.manager.devs)
        × (get_elem? t.streams j ≡ some stale)
  lost_update s i j told stale u w cluster next fx t at_i at_j apart ran recorded quiet =
      Quiet-Holds (fingerprint u.manager.devs) j stale
        (recorded, get_elem?-set_other s.streams i j u.told apart ∙ at_j) quiet
