-- ===== src/Server/DeviceShare.antt =====
-- internal/server/device_share.go: device-share is set on every chip of the node with npu-smi.
pub mod Shared
use Prim.Native.String.{◌++◌}
use ascend_device_plugin.Base.{
  ℤ, String, Bool, true, false, ◌&&◌, List, [], ◌∷◌, Option, none, some, Result, ok, err, Error,
  message, wrap, or_wrap, eqb_ℤ, map, if◌then◌else◌,
}
use ascend_device_plugin.Base.Text.{itoa}
use ascend_device_plugin.Manager.State.{Device}
use ascend_device_plugin.Server.Plugin.{Manager}

pub record ChipKey : Type 0 where
  pub card : ℤ
  pub chip : ℤ

-- The outside: which candidates os.Stat finds to be files that can be executed, exec.LookPath, the
-- command's error with its output, if it fails, and strings.TrimSpace.
pub record NpuSmi : Type 0 where
  pub is_executable : String → Bool
  pub look_path : Result String
  pub exec : List String → Option (Error × String)
  pub trim_space : String → String

abbrev npu_smi_candidates : List String
npu_smi_candidates =
    "/usr/local/Ascend/driver/tools/npu-smi" ∷ "/usr/local/sbin/npu-smi" ∷ "/usr/local/bin/npu-smi"
    ∷ []

unfoldable pub first_executable : (String → Bool) → List String → Option String
first_executable is_executable [] = none
first_executable is_executable (path ∷ paths) =
    if is_executable path then some path else first_executable is_executable paths

unfoldable pub resolve_npu_smi : NpuSmi → Result String
unfolding first_executable
resolve_npu_smi smi = elim (first_executable smi.is_executable npu_smi_candidates) [
  | some path ↦ ok path
  | none ↦ elim smi.look_path [
    | ok path ↦ ok path
    | err e ↦ err (
        message
          "npu-smi not found in [/usr/local/Ascend/driver/tools/npu-smi /usr/local/sbin/npu-smi /usr/local/bin/npu-smi] or PATH")
  ]
]

-- The program and its arguments.
abbrev pub share_command : String → ChipKey → String → List String
share_command bin c flag =
    bin ∷ "set" ∷ "-t" ∷ "device-share" ∷ "-i" ∷ itoa c.card ∷ "-c" ∷ itoa c.chip ∷ "-d" ∷ flag ∷ []

-- The text of `wrap` holds what stands around the error, the command's output last.
abbrev pub share_error : ChipKey → String → Error → String → Error
share_error c flag e out =
    wrap
      ("npu-smi set device-share -i "
        ++ itoa c.card
        ++ " -c "
        ++ itoa c.chip
        ++ " -d "
        ++ flag
        ++ ": "
        ++ out)
      e

abbrev pub Ran : Type 0
Ran = Result (Unit {0}) × List (List String)

abbrev pub before : List String → Ran → Ran
before command (r, commands) = (r, command ∷ commands)

-- The loop over the chips, with the commands that were run. Without a program none is.
unfoldable pub share_chips : NpuSmi → String → List ChipKey → Ran
share_chips smi flag [] = (ok tt, [])
share_chips smi flag (c ∷ chips) = elim (resolve_npu_smi smi) [
  | err e ↦ (err (share_error c flag e (smi.trim_space "")), [])
  | ok bin ↦ elim (smi.exec (share_command bin c flag)) [
    | some (e, out) ↦
        (err (share_error c flag e (smi.trim_space out)), share_command bin c flag ∷ [])
    | none ↦ before (share_command bin c flag) (share_chips smi flag chips)
  ]
]

unfoldable pub apply_device_share : NpuSmi → List ChipKey → Bool → Ran
apply_device_share smi chips enabled = share_chips smi (if enabled then "1" else "0") chips

abbrev pub chip_of : Device → ChipKey
chip_of dev = record { card = dev.card_id; chip = dev.device_id }

unfoldable pub has_chip : ChipKey → List ChipKey → Bool
has_chip c [] = false
has_chip c (x ∷ chips) =
    if eqb_ℤ c.card x.card && eqb_ℤ c.chip x.chip then true else has_chip c chips

-- `chipSet[c] = struct{}{}`
unfoldable pub add_chip : ChipKey → List ChipKey → List ChipKey
unfolding has_chip
add_chip c chips = if has_chip c chips then chips else c ∷ chips

unfoldable pub chip_set : List Device → List ChipKey
unfolding add_chip
chip_set [] = []
chip_set (dev ∷ devs) = add_chip (chip_of dev) (chip_set devs)

-- `order` is the order in which Go goes through the set.
unfoldable pub enable_chips : (List ChipKey → List ChipKey) → NpuSmi → List ChipKey → Ran
enable_chips order smi [] = (ok tt, [])
enable_chips order smi (c ∷ chips) =
    let (r, commands) = apply_device_share smi (order (c ∷ chips)) true in
    (or_wrap "enable node device-share" r, commands)

unfoldable pub enable_node_device_share : (List ChipKey → List ChipKey) → NpuSmi → Manager → Ran
enable_node_device_share order smi mgr =
    if mgr.is_hami_vnpu_core then enable_chips order smi (chip_set mgr.devices) else (ok tt, [])
