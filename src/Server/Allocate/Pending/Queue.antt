-- ===== src/Server/Allocate/Pending/Queue.antt =====
-- internal/server/allocate.go, popNextContainerDevices as the front of a queue.
use ascend_device_plugin.Base.{
  ℕ, zero, suc, ◌-◌, String, ◌≡◌, refl, sym, ap, ◌⊎◌, inl, inr, List, [], ◌∷◌, ◌++◌, map, Option,
  none, some, length, get_elem?, ltb, arith, if◌then◌else◌,
}
use ascend_device_plugin.Server.Plugin.{Pod, Container}
use ascend_device_plugin.Server.Allocate.Pending.{
  name_of, ctr_name_at, pop_from, pop_next_container_devices,
}

-- The names of a pod's containers, the init containers first.
abbrev pub ctr_names : Pod → List String
ctr_names pod = map (λ c. c.name) pod.init_containers ++ map (λ c. c.name) pod.containers

-- "" past the end.
abbrev pub nth_name : List String → ℕ → String
nth_name [] i = ""
nth_name (name ∷ names) zero = name
nth_name (name ∷ names) (suc i) = nth_name names i

name_of-nth_name :
    (ctrs : List Container) (i : ℕ)
    → name_of (get_elem? ctrs i) ≡ nth_name (map (λ c. c.name) ctrs) i
name_of-nth_name [] i = refl
name_of-nth_name (c ∷ ctrs) zero = refl
name_of-nth_name (c ∷ ctrs) (suc i) = name_of-nth_name ctrs i

names-append :
    (init ctrs : List Container) (i : ℕ)
    → (if ltb i (length init)
        then name_of (get_elem? init i)
        else name_of (get_elem? ctrs (i - length init)))
      ≡ nth_name (map (λ c. c.name) init ++ map (λ c. c.name) ctrs) i
names-append [] ctrs i = ground (arith, name_of-nth_name ctrs i)
names-append (c ∷ init) ctrs zero = ground arith
names-append (c ∷ init) ctrs (suc i) = ground (arith, names-append init ctrs i)

ctr_name_at-nth_name : (pod : Pod) (i : ℕ) → ctr_name_at pod i ≡ nth_name (ctr_names pod) i
unfolding ctr_name_at
ctr_name_at-nth_name pod i = names-append pod.init_containers pod.containers i

module _ {D : Type 0} where
  -- The containers that wait, from index `i` on: name and devices.
  abbrev pub pending_from : Pod → ℕ → List (List D) → List (String × List D)
  pending_from pod i [] = []
  pending_from pod i ([] ∷ rest) = pending_from pod (suc i) rest
  pending_from pod i ((dev ∷ devs) ∷ rest) =
      (nth_name (ctr_names pod) i, dev ∷ devs) ∷ pending_from pod (suc i) rest

  abbrev pub pending : Pod → List (List D) → List (String × List D)
  pending pod psd = pending_from pod 0 psd

  abbrev pub Pops :
      List (String × List D)
      → (List (List D) → List (String × List D))
      → List (List D)
      → Option (List D × String × List (List D))
      → Type 0
  Pops queue view psd r =
      ((queue ≡ []) × (r ≡ none))
      ⊎ ((devs : List D) × (name : String) × (rest : List (List D)) × (r ≡ some (devs, name, rest))
          × (queue ≡ (name, devs) ∷ view rest)
          × (length rest ≡ length psd))

  pop_from-Pops :
      (pod : Pod) (i : ℕ) (psd : List (List D))
      → Pops (pending_from pod i psd) (pending_from pod i) psd (pop_from pod i psd)
  unfolding pop_from
  pop_from-Pops pod i [] = inl (refl, refl)
  pop_from-Pops pod i ([] ∷ rest) = elim (pop_from-Pops pod (suc i) rest) [
    | inl (e, p) ↦ inl (e, rw p)
    | inr (devs, name, rest', p, e, l) ↦ inr (devs, name, [] ∷ rest', rw p, e, ap suc l)
  ]
  pop_from-Pops pod i ((dev ∷ devs) ∷ rest) = inr (
    dev ∷ devs,
    ctr_name_at pod i,
    [] ∷ rest,
    refl,
    ap (λ name. (name, dev ∷ devs) ∷ pending_from pod (suc i) rest)
        (sym (ctr_name_at-nth_name pod i)),
    refl,
  )

  -- popNextContainerDevices takes the first of the containers that wait, with its name and its devices,
  -- and leaves the others in order, each at its index; it fails exactly when none waits.
  pub pop_next_container_devices-Pops :
      (pod : Pod) (psd : List (List D))
      → Pops (pending pod psd) (pending pod) psd (pop_next_container_devices pod psd)
  unfolding pop_next_container_devices
  pop_next_container_devices-Pops pod psd = pop_from-Pops pod 0 psd
