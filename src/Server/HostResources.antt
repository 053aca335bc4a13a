-- ===== src/Server/HostResources.antt =====
-- internal/server/util.go: the directories and files that the plugin puts on the host.
pub mod Copying
pub mod Installed
use ascend_device_plugin.Base.{
  ℕ, String, Bool, true, false, ◌==◌, ◌&&◌, not, List, [], ◌∷◌, Option, none, some, Result, ok, err,
  Error, wrap, map, if◌then◌else◌,
}
use Prim.Native.String.{◌++◌}
use ascend_device_plugin.Config.{Bytes}

-- The file system by its states `F`: os.Open, reading a file to its end, os.Create, io.Copy into a created
-- file, Stat with Mode, os.Chmod, os.MkdirAll, os.IsExist, whether os.Stat finds a path; SHA-256 in
-- hexadecimal; whether an error's text contains "text file busy"; HAMI_VNPU_ASSETS_PATH; filepath.Join; and
-- the order in which Go goes through the map of files.
pub record HostFiles (F : Type 0) : Type 0 where
  pub open_file : F → String → Result (Unit {0})
  pub read_file : F → String → Result Bytes
  pub create : F → String → Result (Unit {0}) × F
  pub copy : F → String → String → Result (Unit {0}) × F
  pub mode : F → String → Result ℕ
  pub chmod : F → String → ℕ → Result (Unit {0}) × F
  pub mkdir_all : F → String → ℕ → Result (Unit {0}) × F
  pub is_exist : Error → Bool
  pub exists : F → String → Bool
  pub sha256_hex : Bytes → String
  pub is_busy : Error → Bool
  pub assets_path_env : String
  pub join : String → String → String
  pub order : List (String × String) → List (String × String)

abbrev pub shared_region_path : String
shared_region_path = "/usr/local/hami-shared-region"

abbrev pub target_dir : String
target_dir = "/usr/local/hami-vnpu-core"

module _ {F : Type 0} (os : HostFiles F) where
  -- A step's outcome, and the files that it leaves.
  abbrev pub Step : Type 0
  Step = Result (Unit {0}) × F

  unfoldable pub file_sha256 : F → String → Result String
  file_sha256 f path = elim (os.read_file f path) [
    | err e ↦ err e
    | ok bytes ↦ ok (os.sha256_hex bytes)
  ]

  abbrev pub then_do : Step → (F → Step) → Step
  then_do (err e, f) next = (err e, f)
  then_do (ok t, f) next = next f

  unfoldable pub copy_mode : String → String → F → Step
  copy_mode src dst f = elim (os.mode f src) [ err e ↦ (err e, f) | ok mode ↦ os.chmod f dst mode ]

  unfoldable pub copy_file : F → String → String → Step
  unfolding copy_mode
  copy_file f src dst = elim (os.open_file f src) [
    | err e ↦ (err e, f)
    | ok t ↦
        then_do (os.create f dst)
          λ created. then_do (os.copy created src dst) λ copied. copy_mode src dst copied
  ]

  unfoldable pub same_sums : Result String → Result String → Bool
  same_sums (ok src_sum) (ok dst_sum) = src_sum == dst_sum
  same_sums (ok src_sum) (err e) = false
  same_sums (err e) dst_sum = false

  unfoldable pub is_up_to_date : F → String → String → Bool
  unfolding file_sha256 same_sums
  is_up_to_date f src dst = os.exists f dst && same_sums (file_sha256 f src) (file_sha256 f dst)

  -- A file that a process runs is kept as it is.
  unfoldable pub copied : String → Step → Step
  copied dst (ok t, f) = (ok tt, f)
  copied dst (err e, f) =
      if os.is_busy e then (ok tt, f) else (err (wrap ("failed to copy " ++ dst) e), f)

  unfoldable pub install : F → String → String → Step
  unfolding copied
  install f src dst =
      if is_up_to_date f src dst then (ok tt, f) else copied dst (copy_file f src dst)

  -- The loop over filesToCopy, by the sources' and the destinations' paths.
  unfoldable pub install_files : List (String × String) → F → Step
  install_files [] f = (ok tt, f)
  install_files ((src, dst) ∷ files) f = then_do (install f src dst) (install_files files)

  unfoldable pub files_to_copy : List (String × String)
  files_to_copy =
      let assets_dir =
        if os.assets_path_env == ""
        then "/usr/local/hami-vnpu-core-assets"
        else os.assets_path_env in
      map (λ (name, dest). (os.join assets_dir name, dest))
        (os.order (
          ("libvnpu.so", os.join target_dir "libvnpu.so")
          ∷ ("ld.so.preload", os.join target_dir "ld.so.preload")
          ∷ []))

  abbrev pub or_wrapped : String → Step → Step
  or_wrapped text (err e, f) = (err (wrap text e), f)
  or_wrapped text (ok t, f) = (ok tt, f)

  unfoldable pub make_shared_region : Step → Step
  make_shared_region (ok t, f) = (ok tt, f)
  make_shared_region (err e, f) =
      if os.is_exist e
      then (ok tt, f)
      else (err (wrap ("failed to create " ++ shared_region_path) e), f)

  -- 0775, and then the files.
  unfoldable pub prepare_target_dir : F → Step
  unfolding files_to_copy
  prepare_target_dir f =
      then_do (or_wrapped ("failed to create " ++ target_dir) (os.mkdir_all f target_dir 509))
        (install_files files_to_copy)

  -- 0777.
  unfoldable pub open_shared_region : F → Step
  open_shared_region f =
      then_do
        (or_wrapped ("failed to chmod " ++ shared_region_path) (os.chmod f shared_region_path 511))
        prepare_target_dir

  unfoldable pub prepare_host_resources : F → Step
  prepare_host_resources f =
      then_do (make_shared_region (os.mkdir_all f shared_region_path 511)) open_shared_region
