-- ===== src/Server/Allocate/Response/Modes.antt =====
-- internal/server/allocate.go, buildContainerAllocateResponse: its result in the two modes, and when it
-- has one.
use Prim.Native.String
use ascend_device_plugin.Base.{
  String, Bool, true, false, ◌≡◌, ◌≢◌, refl, ap, ◌∙◌, inl, inr, ◌⊎◌, List, [], ◌∷◌, map, ℤ, ok, err,
  Error, message, Bool-cases, arith, ◌↔◌, Option, none, some, eq_iff, ◌==◌, ◌&&◌, ◌||◌,
}
use ascend_device_plugin.Base.Dict.{Dict, lookup}
use ascend_device_plugin.Manager.State.{Device}
use ascend_device_plugin.Server.Plugin.{Manager, Pod, PluginServer, RuntimeInfo}
use ascend_device_plugin.Server.Allocate.Response.{
  Mount, ContainerAllocateResponse, Effect, remove_all, mkdir_all, chmod, Hami, Host, Gathered,
  gather, nothing_gathered, core_mounts, container_shmem_dir, npu_smi_mount_candidates,
  effective_hami_core, respond, respond_to, build_container_allocate_response,
}
use ascend_device_plugin.Server.Allocate.Response.Gathering.{
  Resolves, values, first_temp, gather-cases,
}
use ascend_device_plugin.Server.Allocate.Response.Contents.{
  CoreEnvs, core_envs-CoreEnvs, PlainEnvs, insert-PlainEnvs, NpuSmiMount, mount_npu_smi-NpuSmiMount,
}

-- The test of a pod's mode, by what its annotation says and by the node's mode.
asks_iff :
    (o : Option String) (core : Bool)
    → (let mode : String = elim o [ none ↦ "" | some v ↦ v ] in
        (mode == "hami-core" || (mode == "" && core)) ≡ true)
      ↔ ((o ≡ some "hami-core") ⊎ (((o ≡ none) ⊎ (o ≡ some "")) × (core ≡ true)))
asks_iff none core = (
  λ h. inr (inl refl, ground arith),
  λ asks. elim asks [ inl e ↦ absurd (cc) | inr (_, e) ↦ ground arith ],
)
asks_iff (some mode) core = (
  λ h. elim (Bool-cases (mode == "hami-core")) [
    | inl hit ↦ inl (ap some ((eq_iff mode "hami-core").0 hit))
    | inr miss ↦ elim (Bool-cases (mode == "")) [
      | inl unset ↦ inr (inr (ap some ((eq_iff mode "").0 unset)), ground arith)
      | inr other ↦ absurd (ground arith)
    ]
  ],
  λ asks. elim asks [
    | inl e ↦ let same : mode ≡ "hami-core" = cc in ground (arith, eq_iff mode "hami-core")
    | inr (inl e, _) ↦ absurd (cc)
    | inr (inr e, on) ↦
        let same : mode ≡ "" = cc in ground (arith, eq_iff mode "", eq_iff mode "hami-core")
  ],
)

abbrev mounted : String → String → Bool → Mount
mounted host_path container_path read_only = record {
  host_path = host_path;
  container_path = container_path;
  read_only = read_only;
}

module _ {D : Type 0} (hami : Hami D) (ps : PluginServer) (mgr : Manager) (host : Host) (pod : Pod)
    (ctr_name : String) (infos : Dict RuntimeInfo) where
  abbrev phy_ids : List Device → List ℤ
  phy_ids = map λ d. d.phy_id

  abbrev memories : List D → List ℤ
  memories = values hami.uuid mgr infos (λ i. i.memory)

  abbrev cores : List D → List ℤ
  cores = values hami.uuid mgr infos (λ i. i.core)

  abbrev pub IsCore : List D → List Device → ContainerAllocateResponse → List Effect → Type 0
  IsCore devs ds resp fx =
      let dir = container_shmem_dir host pod ctr_name in
      CoreEnvs (phy_ids ds) (memories devs) (cores devs) resp.envs
      × (resp.mounts
          ≡ mounted "/usr/local/bin/npu-smi" "/usr/local/bin/npu-smi" true
            ∷ mounted "/etc/ascend_install.info" "/etc/ascend_install.info" true
            ∷ mounted "/usr/local/Ascend/driver/lib64/driver"
                "/usr/local/Ascend/driver/lib64/driver" true
            ∷ mounted "/usr/local/Ascend/driver/version.info"
                "/usr/local/Ascend/driver/version.info" true
            ∷ mounted "/usr/local/hami-vnpu-core" "/hami-vnpu-core" true
            ∷ mounted "/usr/local/hami-vnpu-core/ld.so.preload" "/etc/ld.so.preload" true
            ∷ mounted "/usr/local/hami-shared-region" "/hami-shared-region" false
            ∷ mounted dir "/hami-vnpu-shmem" false
            ∷ [])
      × (fx ≡ remove_all dir ∷ mkdir_all dir ∷ chmod dir ∷ [])

  abbrev pub IsPlain : List D → List Device → ContainerAllocateResponse → List Effect → Type 0
  IsPlain devs ds resp fx =
      PlainEnvs (phy_ids ds) (first_temp hami.uuid mgr infos devs) resp.envs
      × NpuSmiMount host
          ("/usr/local/Ascend/driver/tools/npu-smi" ∷ "/usr/local/sbin/npu-smi"
            ∷ "/usr/local/bin/npu-smi" ∷ [])
          resp.mounts
      × (fx ≡ [])

  -- Soft slicing is in effect: the pod asks for it, or does not say and the node is set to it.
  abbrev pub HasCoreMode : Type 0
  HasCoreMode =
      (lookup "huawei.com/vnpu-mode" pod.annotations ≡ some "hami-core")
      ⊎ (((lookup "huawei.com/vnpu-mode" pod.annotations ≡ none)
            ⊎ (lookup "huawei.com/vnpu-mode" pod.annotations ≡ some ""))
          × (mgr.is_hami_vnpu_core ≡ true))

  abbrev pub Responds : List D → List Device → ContainerAllocateResponse × List Effect → Type 0
  Responds devs ds (resp, fx) =
      (HasCoreMode × IsCore devs ds resp fx) ⊎ ((¬ HasCoreMode) × IsPlain devs ds resp fx)

  effective_hami_core_iff : (effective_hami_core mgr pod ≡ true) ↔ HasCoreMode
  unfolding effective_hami_core
  effective_hami_core_iff =
      asks_iff (lookup "huawei.com/vnpu-mode" pod.annotations) mgr.is_hami_vnpu_core

  respond-Responds :
      (devs : List D) (ds : List Device) (g : Gathered) (first : ℤ) (others : List ℤ)
      → first ∷ others ≡ phy_ids ds
      → g.memories ≡ memories devs
      → g.cores ≡ cores devs
      → g.ascend_vnpu_spec ≡ first_temp hami.uuid mgr infos devs
      → Responds devs ds (respond mgr host pod ctr_name first others g)
  unfolding respond core_mounts
  respond-Responds devs ds g first others i m c t =
      elim (Bool-cases (effective_hami_core mgr pod)) [
        | inl core ↦ inl (
          effective_hami_core_iff.0 core,
          rw (core, respond) (rw (← i, ← m, ← c) (core_envs-CoreEnvs first others g, refl, refl)),
        )
        | inr plain ↦ inr (
          λ asked. cc (effective_hami_core_iff.1 asked),
          rw (plain, respond)
              (rw (← i, ← t)
                (
                  insert-PlainEnvs first others g.ascend_vnpu_spec,
                  mount_npu_smi-NpuSmiMount host npu_smi_mount_candidates,
                  refl,
                )),
        )
      ]

  respond_to-ok :
      (g : Gathered) (first : ℤ) (others : List ℤ)
      → g.ids ≡ first ∷ others
      → respond_to ps mgr host pod ctr_name g ≡ ok (respond mgr host pod ctr_name first others g)
  unfolding respond_to
  respond_to-ok g first others e = ground arith

  abbrev no_device : Error
  no_device = message (String.◌++◌ "annotation " (String.◌++◌ ps.alloc_anno " value invalid"))

  respond_to-err :
      (g : Gathered) → g.ids ≡ [] → respond_to ps mgr host pod ctr_name g ≡ err no_device
  unfolding respond_to
  respond_to-err g e = ground arith

  no_devs : (ds : List Device) → Resolves hami.uuid mgr infos [] ds → ds ≡ []
  no_devs [] r = refl
  no_devs (d ∷ ds) r = absurd r

  abbrev pub Builds : List D → Type 0
  Builds devs =
      let r = build_container_allocate_response hami ps mgr host pod ctr_name devs infos in
      ((e : Error) × (r ≡ err e)
        × ((devs ≡ []) ⊎ ((ds : List Device) → ¬ Resolves hami.uuid mgr infos devs ds)))
      ⊎ ((ds : List Device) × (built : ContainerAllocateResponse × List Effect) × (r ≡ ok built)
          × (devs ≢ [])
          × Resolves hami.uuid mgr infos devs ds
          × Responds devs ds built)

  from_gathered :
      (devs : List D) (ds : List Device) (g : Gathered)
      → gather hami.uuid mgr infos devs nothing_gathered ≡ ok g
      → Resolves hami.uuid mgr infos devs ds
      → g.ids ≡ phy_ids ds
      → g.memories ≡ memories devs
      → g.cores ≡ cores devs
      → g.ascend_vnpu_spec ≡ first_temp hami.uuid mgr infos devs
      → Builds devs
  unfolding build_container_allocate_response
  from_gathered [] ds g p known i m c t =
      inl (no_device, rw p (respond_to-err g (i ∙ ap phy_ids (no_devs ds known))), inl refl)
  from_gathered (dev ∷ devs) [] g p known i m c t = absurd known
  from_gathered (dev ∷ devs) (d ∷ ds) g p known i m c t = inr (
    d ∷ ds,
    respond mgr host pod ctr_name d.phy_id (phy_ids ds) g,
    rw p (respond_to-ok g d.phy_id (phy_ids ds) i),
    (λ e. cc),
    known,
    respond-Responds (dev ∷ devs) (d ∷ ds) g d.phy_id (phy_ids ds) refl m c t,
  )

  -- A container gets an error if its annotation lists no device or one that the manager does not know,
  -- and otherwise a response for exactly the listed devices.
  pub build_container_allocate_response-Builds : (devs : List D) → Builds devs
  unfolding build_container_allocate_response
  build_container_allocate_response-Builds devs =
      elim (gather-cases hami.uuid mgr infos devs nothing_gathered) [
        | inl (e, p, unknown) ↦ inl (e, rw p, inr unknown)
        | inr (g, ds, p, (known, i, m, c, t)) ↦ from_gathered devs ds g p known i m c t
      ]
