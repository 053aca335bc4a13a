-- ===== src/Server/Allocate/Response/Contents.antt =====
-- internal/server/allocate.go: what a container is given, in each of the two modes.
use Prim.Native.String
use text.Mathlib.TextLemmas
use ascend_device_plugin.Base.{
  String, true, false, ◌==◌, ◌≡◌, refl, sym, ap, ◌∙◌, inl, inr, ◌⊎◌, List, [], ◌∷◌, ℤ, Option, none,
  some, Memᴰ, Bool-cases, arith, if◌then◌else◌,
}
use ascend_device_plugin.Base.Dict.{Dict, lookup, insert, lookup-insert, dict_laws}
use ascend_device_plugin.Base.Text.{itoa}
use ascend_device_plugin.Server.Allocate.Response.{
  Mount, Host, Gathered, visible_devices, set_first, core_envs, mount_npu_smi,
}

-- The ids in decimal, with commas between them.
abbrev pub join : List ℤ → String
join [] = ""
join (x ∷ []) = itoa x
join (x ∷ y ∷ xs) = String.◌++◌ (itoa x) (String.◌++◌ "," (join (y ∷ xs)))

visible-join :
    (s : String) (x : ℤ) (xs : List ℤ)
    → visible_devices (String.◌++◌ s (itoa x)) xs ≡ String.◌++◌ s (join (x ∷ xs))
unfolding visible_devices
visible-join s x [] = refl
visible-join s x (y ∷ xs) =
    ap (λ t. visible_devices t xs)
      (sym (TextLemmas.append_assoc (String.◌++◌ s (itoa x)) "," (itoa y)))
    ∙ visible-join (String.◌++◌ (String.◌++◌ s (itoa x)) ",") y xs
    ∙ TextLemmas.append_assoc (String.◌++◌ s (itoa x)) "," (join (y ∷ xs))
    ∙ TextLemmas.append_assoc s (itoa x) _

visible_devices-join : (x : ℤ) (xs : List ℤ) → visible_devices (itoa x) xs ≡ join (x ∷ xs)
visible_devices-join x xs =
    ap (λ t. visible_devices t xs) (sym (TextLemmas.nil-append (itoa x)))
    ∙ visible-join "" x xs
    ∙ TextLemmas.nil-append (join (x ∷ xs))

abbrev pub first_of : List ℤ → Option String
first_of [] = none
first_of (x ∷ xs) = some (itoa x)

abbrev or_else : Option String → Option String → Option String
or_else none o = o
or_else (some s) o = some s

lookup-set_first :
    (j key : String) (xs : List ℤ) (envs : Dict String)
    → lookup j (set_first key xs envs)
      ≡ (if key == j then or_else (first_of xs) (lookup j envs) else lookup j envs)
unfolding set_first
lookup-set_first j key [] envs = ground arith
lookup-set_first j key (x ∷ xs) envs = lookup-insert key j (itoa x) envs

or_else-none : (o : Option String) → or_else o none ≡ o
or_else-none none = refl
or_else-none (some s) = refl

ruleset env_laws = (lookup-set_first, or_else-none, dict_laws)

-- The registry of the first device that is handed out, shared by its containers.
abbrev pub global_registry : List ℤ → Option String
global_registry [] = none
global_registry (x ∷ xs) =
    some (String.◌++◌ "/hami-shared-region/" (String.◌++◌ (itoa x) "_global_registry"))

-- The environment of the soft-slicing mode.
abbrev pub CoreEnvs : List ℤ → List ℤ → List ℤ → Dict String → Type 0
CoreEnvs ids memories cores envs =
    (lookup "ASCEND_VISIBLE_DEVICES" envs ≡ some (join ids))
    × (lookup "NPU_MEM_QUOTA" envs ≡ first_of memories)
    × (lookup "NPU_PRIORITY" envs ≡ first_of cores)
    × (lookup "NPU_GLOBAL_SHM_PATH" envs ≡ global_registry ids)
    × (lookup "NPU_LOCAL_SHM_PATH" envs ≡ some "/hami-vnpu-shmem/vnpu_local_shmem")
    × (lookup "ASCEND_VNPU_SPECS" envs ≡ none)

pub core_envs-CoreEnvs :
    (first : ℤ) (others : List ℤ) (g : Gathered)
    → CoreEnvs (first ∷ others) g.memories g.cores (
        core_envs first g
          (insert "ASCEND_VISIBLE_DEVICES" (visible_devices (itoa first) others) []))
unfolding core_envs
core_envs-CoreEnvs first others g = (
  simp env_laws (ap some (visible_devices-join first others)),
  simp env_laws,
  simp env_laws,
  simp env_laws,
  simp env_laws,
  simp env_laws,
)

-- The environment where the container has its device, or a template of it, for itself.
abbrev pub PlainEnvs : List ℤ → String → Dict String → Type 0
PlainEnvs ids spec envs =
    (lookup "ASCEND_VISIBLE_DEVICES" envs ≡ some (join ids))
    × (lookup "ASCEND_VNPU_SPECS" envs ≡ (if spec == "" then none else some spec))
    × (lookup "NPU_MEM_QUOTA" envs ≡ none)
    × (lookup "NPU_PRIORITY" envs ≡ none)
    × (lookup "NPU_GLOBAL_SHM_PATH" envs ≡ none)
    × (lookup "NPU_LOCAL_SHM_PATH" envs ≡ none)

pub insert-PlainEnvs :
    (first : ℤ) (others : List ℤ) (spec : String)
    → (let envs = insert "ASCEND_VISIBLE_DEVICES" (visible_devices (itoa first) others) [] in
        PlainEnvs
          (first ∷ others)
          spec
          (if spec == "" then envs else insert "ASCEND_VNPU_SPECS" spec envs))
insert-PlainEnvs first others spec = elim (Bool-cases (spec == "")) [
  | inl nil ↦ rw nil (
    simp env_laws (ap some (visible_devices-join first others)),
    simp env_laws,
    simp env_laws,
    simp env_laws,
    simp env_laws,
    simp env_laws,
  )
  | inr named ↦ rw named (
    simp env_laws (ap some (visible_devices-join first others)),
    simp env_laws,
    simp env_laws,
    simp env_laws,
    simp env_laws,
    simp env_laws,
  )
]

-- At most the first npu-smi that is on the node, read-only, at the one path of the container.
abbrev pub NpuSmiMount : Host → List String → List Mount → Type 0
NpuSmiMount host paths mounts =
    ((mounts ≡ []) × ((path : String) → Memᴰ path paths → host.stats path ≡ false))
    ⊎ ((path : String) × Memᴰ path paths
        × (host.stats path ≡ true)
        × (mounts
            ≡ record {
              host_path = path;
              container_path = "/usr/local/bin/npu-smi";
              read_only = true;
            }
              ∷ []))

none_there :
    (host : Host) (path : String) (paths : List String)
    → host.stats path ≡ false
    → ((p : String) → Memᴰ p paths → host.stats p ≡ false)
    → (p : String) → Memᴰ p (path ∷ paths)
    → host.stats p ≡ false
none_there host path paths h t p (Memᴰ.head e) = cc
none_there host path paths h t p (Memᴰ.tail m) = t p m

pub mount_npu_smi-NpuSmiMount :
    (host : Host) (paths : List String) → NpuSmiMount host paths (mount_npu_smi host paths)
unfolding mount_npu_smi
mount_npu_smi-NpuSmiMount host [] = inl (refl, λ p m. elim m [ ])
mount_npu_smi-NpuSmiMount host (path ∷ paths) = elim (Bool-cases (host.stats path)) [
  | inl there ↦ inr (path, Memᴰ.head refl, there, rw there)
  | inr missing ↦ elim (mount_npu_smi-NpuSmiMount host paths) [
    | inl (nil, none_found) ↦ inl (rw missing nil, none_there host path paths missing none_found)
    | inr (p, mem, there, one) ↦ inr (p, Memᴰ.tail mem, there, rw missing one)
  ]
]
