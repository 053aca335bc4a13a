-- ===== src/Monitor/Containers/Pods.antt =====
-- internal/monitor/container.go: the pods by their uid.
use ascend_device_plugin.Base.{
  String, ◌==◌, ◌≡◌, ◌≢◌, refl, ◌⊎◌, inl, inr, List, [], ◌∷◌, Option, none, some, Memᴰ, arith,
  eq_iff, Bool-cases,
}
use ascend_device_plugin.Base.Dict.{Dict, lookup, lookup-insert, lookup-nil}
use ascend_device_plugin.Monitor.Containers.{LivePod, index_pods}

index_pods-found :
    (uid : String) (pod : LivePod) (pods : List LivePod) (by_uid : Dict LivePod)
    → lookup uid (index_pods pods by_uid) ≡ some pod
    → (Memᴰ pod pods × (pod.uid ≡ uid)) ⊎ (lookup uid by_uid ≡ some pod)
unfolding index_pods
index_pods-found uid pod [] by_uid h = inr h
index_pods-found uid pod (p ∷ pods) by_uid h = elim (index_pods-found uid pod pods _ h) [
  | inl (m, e) ↦ inl (Memᴰ.tail m, e)
  | inr before ↦ elim (Bool-cases (p.uid == uid)) [
    | inl hit ↦
        let same : some p ≡ some pod = ground (arith, lookup-insert p.uid uid p by_uid) in
        inl (Memᴰ.head (ground arith), ground (arith, eq_iff p.uid uid))
    | inr miss ↦ inr (ground (arith, lookup-insert p.uid uid p by_uid))
  ]
]

index_pods-missing :
    (uid : String) (pods : List LivePod) (by_uid : Dict LivePod)
    → lookup uid (index_pods pods by_uid) ≡ none
    → ((pod : LivePod) → Memᴰ pod pods → pod.uid ≢ uid) × (lookup uid by_uid ≡ none)
unfolding index_pods
index_pods-missing uid [] by_uid h = (λ pod m. elim m [ ], h)
index_pods-missing uid (p ∷ pods) by_uid h =
    let (later, before) = index_pods-missing uid pods _ h in
    (
      other p pods later (ground (arith, lookup-insert p.uid uid p by_uid, eq_iff p.uid uid)),
      ground (arith, lookup-insert p.uid uid p by_uid),
    )
  where
    other :
        (p : LivePod) (pods : List LivePod)
        → ((pod : LivePod) → Memᴰ pod pods → pod.uid ≢ uid)
        → p.uid ≢ uid
        → (pod : LivePod) → Memᴰ pod (p ∷ pods)
        → pod.uid ≢ uid
    other p pods later now pod (Memᴰ.head e) h = now (cc)
    other p pods later now pod (Memᴰ.tail m) h = later pod m h

-- The cluster gives each pod a uid of its own.
abbrev pub IsUnique : List LivePod → Type 0
IsUnique pods = (p q : LivePod) → Memᴰ p pods → Memᴰ q pods → p.uid ≡ q.uid → p ≡ q

-- What the lister has under a uid.
pub index_pods-cases :
    (uid : String) (pods : List LivePod)
    → ((lookup uid (index_pods pods []) ≡ none) × ((pod : LivePod) → Memᴰ pod pods → pod.uid ≢ uid))
      ⊎ ((pod : LivePod) × (lookup uid (index_pods pods []) ≡ some pod)
          × Memᴰ pod pods
          × (pod.uid ≡ uid))
index_pods-cases uid pods = go (lookup uid (index_pods pods [])) refl
  where
    go :
        (r : Option LivePod)
        → lookup uid (index_pods pods []) ≡ r
        → ((lookup uid (index_pods pods []) ≡ none)
            × ((pod : LivePod) → Memᴰ pod pods → pod.uid ≢ uid))
          ⊎ ((pod : LivePod) × (lookup uid (index_pods pods []) ≡ some pod)
              × Memᴰ pod pods
              × (pod.uid ≡ uid))
    go none e = inl (e, (index_pods-missing uid pods [] e).0)
    go (some pod) e = elim (index_pods-found uid pod pods [] e) [
      | inl (m, same) ↦ inr (pod, e, m, same)
      | inr nowhere ↦ ground (arith, lookup-nil {V = LivePod} uid)
    ]
