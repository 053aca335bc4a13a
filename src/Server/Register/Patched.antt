-- ===== src/Server/Register/Patched.antt =====
-- internal/server/register.go, registerHAMi: the annotations that a node is patched with.
use Prim.Native.String.{◌++◌}
use text.Mathlib.TextLemmas.{append_cancel_left}
use ascend_device_plugin.Base.{
  ℤ, Bool, String, ◌≡◌, ◌≢◌, ◌⊎◌, refl, inl, inr, [], none, some, arith, if◌then◌else◌, ◌∙◌, sym,
}
use ascend_device_plugin.Base.Dict.{
  Dict, lookup, lookup-insert_self, lookup-insert_other, lookup-nil, lookup-copy_into,
}
use ascend_device_plugin.Base.Text.{formats-ne}
use ascend_device_plugin.Server.Plugin.{
  Manager, PluginServer, new_plugin_server, node_register_anno, node_handshake_anno,
  vnpu_node_selector_annotation,
}
use ascend_device_plugin.Server.Register.{
  Node, Cluster, clear_words, stale_register_annotations, own_annotations, patched_annotations,
}
use ascend_device_plugin.Server.Register.Clears.{
  IsStale, Writes, clear_words-other, clear_words-sets,
}

register-handshake : (v w : String) → node_register_anno v ≢ node_handshake_anno w
register-handshake v w = formats-ne "hami.io/node-" "r" "h" "egister-" "andshake-" v w (omega arith)

register-selector : (v : String) → node_register_anno v ≢ vnpu_node_selector_annotation
register-selector v = formats-ne "hami" "." "-" "io/node-register-" "vnpu-core" v "" (omega arith)

handshake-selector : (v : String) → node_handshake_anno v ≢ vnpu_node_selector_annotation
handshake-selector v = formats-ne "hami" "." "-" "io/node-handshake-" "vnpu-core" v "" (omega arith)

register_inj : (v w : String) → node_register_anno v ≡ node_register_anno w → v ≡ w
register_inj v w = append_cancel_left "hami.io/node-register-" v w

handshake_inj : (v w : String) → node_handshake_anno v ≡ node_handshake_anno w → v ≡ w
handshake_inj v w = append_cancel_left "hami.io/node-handshake-" v w

-- The server writes under the keys of the manager's word, as NewPluginServer sets them.
pub record IsServerOf (ps : PluginServer) (mgr : Manager) : Type 0 where
  pub register : ps.register_anno ≡ node_register_anno mgr.common_word
  pub handshake : ps.handshake_anno ≡ node_handshake_anno mgr.common_word

pub new_plugin_server-IsServerOf :
    (join : String → String) (mgr : Manager) (node_name : String) (interval : ℤ) (periodic : Bool)
    (in_request_devices : Dict String)
    → IsServerOf (new_plugin_server join mgr node_name interval periodic in_request_devices).0 mgr
unfolding new_plugin_server
new_plugin_server-IsServerOf join mgr node_name interval periodic in_request_devices = record {
  register = refl;
  handshake = refl;
}

module _ (ps : PluginServer) (mgr : Manager) (cluster : Cluster) (data_text : String)
    (node : Node) where
  abbrev pub Stale : String → Type 0
  Stale word = IsStale node.annotations mgr.common_word word mgr.stale_register_common_words

  abbrev pub annos : Dict String
  annos = patched_annotations ps mgr cluster data_text node

  clears : Dict String
  clears = clear_words node.annotations mgr.common_word mgr.stale_register_common_words []

  lookup-annos :
      (j : String)
      → lookup j annos ≡ elim (lookup j clears) [
        | none ↦ lookup j (own_annotations ps mgr cluster data_text)
        | some v ↦ some v
      ]
  unfolding patched_annotations stale_register_annotations clears
  lookup-annos j = lookup-copy_into j _ _

  own-annos :
      (j : String)
      → ((word : String)
          → Stale word
          → (node_register_anno word ≢ j) × (node_handshake_anno word ≢ j))
      → lookup j annos ≡ lookup j (own_annotations ps mgr cluster data_text)
  unfolding clears
  own-annos j h =
      lookup-annos j
      ∙ rw
          (
            clear_words-other node.annotations mgr.common_word j mgr.stale_register_common_words []
                h,
            lookup-nil j,
          )
          refl

  cleared-annos :
      (j v word old : String)
      → Writes node.annotations mgr.common_word j v
      → Stale word
      → (node_register_anno word ≡ j) ⊎ (node_handshake_anno word ≡ j)
      → lookup j node.annotations ≡ some old
      → lookup j annos ≡ some v
  unfolding clears
  cleared-annos j v word old same stale key there =
      lookup-annos j
      ∙ rw
          (clear_words-sets node.annotations mgr.common_word j v word old
            mgr.stale_register_common_words [] same stale key there)
          refl

  register-apart :
      IsServerOf ps mgr
      → (word : String) → word ≢ mgr.common_word
      → (node_register_anno word ≢ ps.register_anno) × (node_handshake_anno word ≢ ps.register_anno)
  register-apart own word nc = (
    λ e. nc (register_inj word mgr.common_word (e ∙ own.register)),
    λ e. register-handshake mgr.common_word word (sym (e ∙ own.register)),
  )

  handshake-apart :
      IsServerOf ps mgr
      → (word : String) → word ≢ mgr.common_word
      → (node_register_anno word ≢ ps.handshake_anno)
        × (node_handshake_anno word ≢ ps.handshake_anno)
  handshake-apart own word nc = (
    λ e. register-handshake word mgr.common_word (e ∙ own.handshake),
    λ e. nc (handshake_inj word mgr.common_word (e ∙ own.handshake)),
  )

  register-Writes :
      (word : String) → Writes node.annotations mgr.common_word (node_register_anno word) "[]"
  register-Writes word w = (λ e. refl, λ e. absurd (register-handshake word w (sym e)))

  handshake-Writes :
      (word : String) → Writes node.annotations mgr.common_word (node_handshake_anno word) ""
  handshake-Writes word w = (λ e. absurd (register-handshake w word e), λ e. refl)

  -- What registerHAMi patches a node with, where the server's keys are those of the current word: the
  -- device list, the handshake and the mode under these keys, whatever words are stale; and, for each
  -- stale word that the node still carries, an empty device list and an empty handshake.
  pub patched_annotations_lem :
      IsServerOf ps mgr
      → (lookup ps.register_anno annos ≡ some data_text)
        × (lookup ps.handshake_anno annos ≡ some ("Reported_" ++ cluster.report_time))
        × (lookup vnpu_node_selector_annotation annos
            ≡ some (if mgr.is_hami_vnpu_core then "true" else "false"))
        × ((word old : String)
            → Stale word
            → lookup (node_register_anno word) node.annotations ≡ some old
            → lookup (node_register_anno word) annos ≡ some "[]")
        × ((word old : String)
            → Stale word
            → lookup (node_handshake_anno word) node.annotations ≡ some old
            → lookup (node_handshake_anno word) annos ≡ some "")
  unfolding own_annotations
  patched_annotations_lem own = (
    own-annos _ (λ w (m, ne, nc). register-apart own w nc)
        ∙ lookup-insert_other _ _ (λ e. register-selector mgr.common_word (sym (e ∙ own.register)))
        ∙ lookup-insert_other _ _ (λ e.
          register-handshake mgr.common_word mgr.common_word
            (sym (sym own.handshake ∙ e ∙ own.register)))
        ∙ lookup-insert_self _ _ _,
    own-annos _ (λ w (m, ne, nc). handshake-apart own w nc)
        ∙ lookup-insert_other _ _
            (λ e. handshake-selector mgr.common_word (sym (e ∙ own.handshake)))
        ∙ lookup-insert_self _ _ _,
    own-annos _ (λ w stale. (register-selector w, handshake-selector w)) ∙ lookup-insert_self _ _ _,
    λ word old stale there.
        cleared-annos _ "[]" word old (register-Writes word) stale (inl refl) there,
    λ word old stale there.
        cleared-annos _ "" word old (handshake-Writes word) stale (inr refl) there,
  )
