-- ===== src/Monitor/Containers/Names.antt =====
-- internal/monitor/container.go against internal/server/allocate.go: the name of a container's directory.
use Prim.Native.Char.{Char, code}
use Prim.Native.String.{◌++◌}
use text.Mathlib.TextEquality.{codes_equal}
use text.Mathlib.TextLemmas.{cons-append, nil-append}
use ascend_device_plugin.Base.{
  String, false, ◌≡◌, ◌≢◌, refl, ap, ◌∙◌, inl, inr, some, eqb, arith, Bool-cases,
}
use ascend_device_plugin.Base.Split.{Lacks}
use ascend_device_plugin.Monitor.Containers.{split_name}
use ascend_device_plugin.Server.Plugin.{Pod}
use ascend_device_plugin.Server.Allocate.Response.{Host, container_shmem_dir, host_hook_path}

abbrev pub underscore : Char
underscore = "_"

-- The last part of the directory that Allocate makes for a container.
abbrev pub dir_name : String → String → String
dir_name uid ctr_name = uid ++ "_" ++ ctr_name

not_underscore : (c : Char) → c ≢ underscore → eqb (code c) 95 ≡ false
not_underscore c ne = elim (Bool-cases (eqb (code c) 95)) [
  | inl hit ↦ absurd (ne (codes_equal c underscore (ground arith)))
  | inr miss ↦ miss
]

split_name-cons :
    (uid rest : String)
    → Lacks underscore uid
    → split_name (uid ++ String.◌∷◌ underscore rest) ≡ some (uid, rest)
unfolding split_name
split_name-cons String.[] rest h = rw (nil-append (String.◌∷◌ underscore rest)) refl
split_name-cons (String.◌∷◌ c uid) rest (ne, h) =
    rw (cons-append c uid (String.◌∷◌ underscore rest))
      (rw (not_underscore c ne, split_name) (rw (split_name-cons uid rest h) refl))

-- The directory that Allocate gives a container is named by the pod's uid and the container's name, and
-- where the uid has no underscore ListContainers reads both back from it.
pub split_name-dir_name :
    (host : Host) (pod : Pod) (ctr_name : String)
    → Lacks underscore pod.uid
    → (container_shmem_dir host pod ctr_name
        ≡ host_hook_path host ++ "/containers/" ++ dir_name pod.uid ctr_name)
      × (split_name (dir_name pod.uid ctr_name) ≡ some (pod.uid, ctr_name))
split_name-dir_name host pod ctr_name h = (
  refl,
  ap (λ s. split_name (pod.uid ++ s))
        (cons-append underscore "" ctr_name ∙ ap (String.◌∷◌ underscore) (nil-append ctr_name))
      ∙ split_name-cons pod.uid ctr_name h,
)
