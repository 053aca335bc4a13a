-- ===== src/Server/Allocate/Response/Local.antt =====
-- internal/server/allocate.go: building a response touches only the container's shared-memory directory.
use ascend_device_plugin.Base.{
  String, ◌≡◌, refl, inl, inr, List, [], ◌∷◌, ◌++◌, ℤ, ok, >>=-eq-ok, Bool-cases, arith, subst,
}
use ascend_device_plugin.Base.Dict.{Dict}
use ascend_device_plugin.Server.Plugin.{Manager, Pod, PluginServer, RuntimeInfo}
use ascend_device_plugin.Server.Allocate.Response.{
  ContainerAllocateResponse, Effect, remove_all, mkdir_all, chmod, patch_pod_annotations,
  pod_allocation_try_success, pod_allocation_failed, Hami, Host, Gathered, effective_hami_core,
  respond, respond_to, gather, nothing_gathered, build_container_allocate_response,
}

-- The effects that touch directories of the node, and not the cluster.
abbrev pub AllLocal : List Effect → Type 0
AllLocal [] = Unit {0}
AllLocal (remove_all path ∷ fx) = AllLocal fx
AllLocal (mkdir_all path ∷ fx) = AllLocal fx
AllLocal (chmod path ∷ fx) = AllLocal fx
AllLocal (patch_pod_annotations pod annos ∷ fx) = ⊥
AllLocal (pod_allocation_try_success node word lock pod ∷ fx) = ⊥
AllLocal (pod_allocation_failed node pod lock ∷ fx) = ⊥

pub AllLocal-append : (xs ys : List Effect) → AllLocal xs → AllLocal ys → AllLocal (xs ++ ys)
AllLocal-append [] ys h k = k
AllLocal-append (remove_all p ∷ xs) ys h k = AllLocal-append xs ys h k
AllLocal-append (mkdir_all p ∷ xs) ys h k = AllLocal-append xs ys h k
AllLocal-append (chmod p ∷ xs) ys h k = AllLocal-append xs ys h k
AllLocal-append (patch_pod_annotations pod a ∷ xs) ys h k = absurd h
AllLocal-append (pod_allocation_try_success n w l pod ∷ xs) ys h k = absurd h
AllLocal-append (pod_allocation_failed n pod l ∷ xs) ys h k = absurd h

respond-local :
    (mgr : Manager) (host : Host) (pod : Pod) (ctr_name : String) (first : ℤ) (others : List ℤ)
    (g : Gathered)
    → AllLocal (respond mgr host pod ctr_name first others g).1
unfolding respond
respond-local mgr host pod ctr_name first others g =
    elim (Bool-cases (effective_hami_core mgr pod)) [
      | inl core ↦ rw (core, respond) tt
      | inr plain ↦ rw (plain, respond) tt
    ]

respond_to-local :
    (ps : PluginServer) (mgr : Manager) (host : Host) (pod : Pod) (ctr_name : String) (g : Gathered)
    (ids : List ℤ) (resp : ContainerAllocateResponse) (fx : List Effect)
    → g.ids ≡ ids
    → respond_to ps mgr host pod ctr_name g ≡ ok (resp, fx)
    → AllLocal fx
unfolding respond_to
respond_to-local ps mgr host pod ctr_name g [] resp fx e h = ground arith
respond_to-local ps mgr host pod ctr_name g (first ∷ others) resp fx e h =
    subst AllLocal {x = (respond mgr host pod ctr_name first others g).1} {y = fx} (ground arith)
      (respond-local mgr host pod ctr_name first others g)

pub build-local :
    {D : Type 0} (hami : Hami D) (ps : PluginServer) (mgr : Manager) (host : Host) (pod : Pod)
    (ctr_name : String) (devs : List D) (infos : Dict RuntimeInfo)
    (resp : ContainerAllocateResponse) (fx : List Effect)
    → build_container_allocate_response hami ps mgr host pod ctr_name devs infos ≡ ok (resp, fx)
    → AllLocal fx
unfolding build_container_allocate_response
build-local hami ps mgr host pod ctr_name devs infos resp fx h =
    let (g, p, k) = >>=-eq-ok (gather hami.uuid mgr infos devs nothing_gathered) _ h in
    respond_to-local ps mgr host pod ctr_name g g.ids resp fx refl k
