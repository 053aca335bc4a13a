-- ===== src/Server/Register.antt =====
-- internal/server/register.go, registerHAMi and what it calls: the node's annotations and label.
pub mod Clears
pub mod Patched
use Prim.Native.String.{◌++◌}
use text.Mathlib.Text.{starts_with}
use mathlib.Core.List
use ascend_device_plugin.Base.{
  ℕ, zero, suc, ℤ, pos, String, Bool, true, false, ◌||◌, ◌==◌, List, [], ◌∷◌, Option, none, some,
  Outcome, returns, panics, and_then, Result, ok, err, Error, wrap, ltb, if◌then◌else◌,
}
use ascend_device_plugin.Base.Int.{to_int32}
use ascend_device_plugin.Base.Dict.{Dict, lookup, insert, copy_into}
use ascend_device_plugin.Manager.State.{Device}
use ascend_device_plugin.Server.Plugin.{
  Manager, PluginServer, node_register_anno, node_handshake_anno, ascend910_prefix,
  ascend910_c_type, vnpu_node_selector_annotation, hami_vnpu_core_max_percent,
}

-- HAMi's device.DeviceInfo; `network_id` is the one entry of CustomInfo.
pub record DeviceInfo : Type 0 where
  pub index : ℕ
  pub id : String
  pub count : ℤ
  pub devmem : ℤ
  pub devcore : ℤ
  pub device_type : String
  pub numa : ℤ
  pub health : Bool
  pub network_id : Option ℤ

pub record Node : Type 0 where
  pub name : String
  pub annotations : Dict String

pub data NodeEffect : Type 0 where
  patch_node_annotations : Node → Dict String → NodeEffect
  -- node name, value of the label hami.io/ascend-common-word
  patch_common_word_label : String → String → NodeEffect

-- json.Marshal of the devices, the formatted time, util.GetNode, the outcome of
-- util.PatchNodeAnnotations, and whether the Kubernetes client is there.
pub record Cluster : Type 0 where
  pub marshal : List DeviceInfo → Result String
  pub report_time : String
  pub get_node : String → Result Node
  pub patches : Node → Dict String → Option Error
  pub has_client : Bool

-- The error of the source is always nil.
unfoldable pub get_device_network_id : ℕ → String → ℤ
get_device_network_id idx device_type =
    if device_type == ascend910_c_type then pos 0 else if ltb 3 idx then pos 1 else pos 0

unfoldable pub device_info : Manager → ℤ → ℕ → Device → DeviceInfo
unfolding get_device_network_id
device_info mgr v_count i dev = record {
  index = i;
  id = dev.uuid;
  count = to_int32 v_count;
  devmem = to_int32 dev.memory;
  devcore = if mgr.is_hami_vnpu_core then hami_vnpu_core_max_percent else dev.ai_core;
  device_type = mgr.common_word;
  numa = pos 0;
  health = dev.health;
  network_id =
      if starts_with mgr.common_word ascend910_prefix
      then some (get_device_network_id i mgr.common_word)
      else none;
}

-- VDeviceCount is called for each device, so without one it cannot panic.
unfoldable pub device_infos : Manager → ℕ → List Device → Outcome (List DeviceInfo)
unfolding device_info
device_infos mgr i [] = returns []
device_infos mgr i (dev ∷ devs) = and_then mgr.v_device_count λ v_count.
    and_then (device_infos mgr (suc i) devs) λ rest. returns (device_info mgr v_count i dev ∷ rest)

-- `if _, ok := node.Annotations[key]; ok { clears[key] = value }`
unfoldable pub clear : Dict String → String → String → Dict String → Dict String
clear annotations key value clears = elim (lookup key annotations) [
  | none ↦ clears
  | some old ↦ insert key value clears
]

unfoldable pub clear_word : Dict String → String → Dict String → Dict String
unfolding clear
clear_word annotations word clears =
    clear annotations (node_handshake_anno word) ""
      (clear annotations (node_register_anno word) "[]" clears)

-- The loop over the stale words.
unfoldable pub clear_words : Dict String → String → List String → Dict String → Dict String
clear_words annotations current_word [] clears = clears
clear_words annotations current_word (word ∷ words) clears =
    clear_words annotations current_word words
      (if word == "" || word == current_word then clears else clear_word annotations word clears)

-- A nil node gives no clears.
unfoldable pub stale_register_annotations : Option Node → String → List String → Dict String
stale_register_annotations none current_word stale_words = []
stale_register_annotations (some node) current_word stale_words =
    clear_words node.annotations current_word stale_words []

-- The patch's own outcome is only logged.
unfoldable pub patch_ascend_common_word_label : Cluster → String → String → List NodeEffect
patch_ascend_common_word_label cluster node_name common_word =
    if node_name == "" || common_word == ""
    then []
    else if cluster.has_client
    then patch_common_word_label node_name common_word ∷ []
    else []

unfoldable pub own_annotations : PluginServer → Manager → Cluster → String → Dict String
own_annotations ps mgr cluster data_text =
    insert vnpu_node_selector_annotation (if mgr.is_hami_vnpu_core then "true" else "false") (
      insert ps.handshake_anno ("Reported_" ++ cluster.report_time)
        (insert ps.register_anno data_text []))

-- The clears overwrite what is there under the same key.
unfoldable pub patched_annotations : PluginServer → Manager → Cluster → String → Node → Dict String
unfolding own_annotations
patched_annotations ps mgr cluster data_text node =
    copy_into
      (stale_register_annotations (some node) mgr.common_word mgr.stale_register_common_words)
      (own_annotations ps mgr cluster data_text)

unfoldable pub patch_node :
    PluginServer → Manager → Cluster → Node → Dict String → Result (Unit {0}) × List NodeEffect
patch_node ps mgr cluster node annos = elim (cluster.patches node annos) [
  | some e ↦ (
    err (wrap ("patch node " ++ ps.node_name ++ " annotations error") e),
    patch_node_annotations node annos ∷ [],
  )
  | none ↦ (
    ok tt,
    patch_node_annotations node annos
        ∷ patch_ascend_common_word_label cluster ps.node_name mgr.common_word,
  )
]

-- From json.Marshal on.
unfoldable pub publish_infos :
    PluginServer → Manager → Cluster → List DeviceInfo → Result (Unit {0}) × List NodeEffect
publish_infos ps mgr cluster infos = elim (cluster.marshal infos) [
  | err e ↦ (err (wrap "marshal node devices error" e), [])
  | ok data_text ↦ elim (cluster.get_node ps.node_name) [
    | err e ↦ (err (wrap ("get node " ++ ps.node_name ++ " error") e), [])
    | ok node ↦ patch_node ps mgr cluster node (patched_annotations ps mgr cluster data_text node)
  ]
]

unfoldable pub register_hami :
    PluginServer → Manager → Cluster → Outcome (Result (Unit {0}) × List NodeEffect)
register_hami ps mgr cluster =
    and_then (device_infos mgr 0 mgr.devices) λ infos. returns (publish_infos ps mgr cluster infos)
