-- ===== src/Manager/Counts.antt =====
-- internal/manager/manager.go, VDeviceCount: when it panics.
use ascend_device_plugin.Base.{
  pos, false, ◌≡◌, ◌↔◌, List, [], ◌∷◌, Option, none, some, panics, ltb_ℤ, arith, Bool-cases,
  Option-cases, inl, inr, refl,
}
use ascend_device_plugin.Base.Int.{eqb_ℤ_iff}
use ascend_device_plugin.Config.{Template, VnpuConfig, NodeConfig}
use ascend_device_plugin.Manager.State.{AscendManager, count_templates, v_device_count}

-- The first template, which is the smallest, has no memory.
abbrev pub IsEmptyFirst : List Template → Type 0
IsEmptyFirst [] = ⊥
IsEmptyFirst (t ∷ ts) = t.memory ≡ pos 0

-- The node's own configuration gives no count.
abbrev pub HasNoCount : Option NodeConfig → Type 0
HasNoCount none = Unit {0}
HasNoCount (some n) = ltb_ℤ (pos 0) n.v_device_count ≡ false

count_templates-panics_iff :
    (c : VnpuConfig) (ts : List Template) → (count_templates c ts ≡ panics) ↔ IsEmptyFirst ts
unfolding count_templates
count_templates-panics_iff c [] = (λ h. ground arith, λ h. absurd h)
count_templates-panics_iff c (t ∷ ts) = ground (arith, eqb_ℤ_iff t.memory (pos 0))

-- VDeviceCount panics exactly where the node's configuration gives no positive count and the first
-- template of the entry in use has memory 0.
pub v_device_count-panics_iff :
    (am : AscendManager)
    → (v_device_count am ≡ panics) ↔ (HasNoCount am.node_config × IsEmptyFirst am.config.templates)
unfolding v_device_count
v_device_count-panics_iff am = elim (Option-cases am.node_config) [
  | inl e ↦ rw (e, v_device_count) (λ h. (tt, templates.0 h), λ (t, h). templates.1 h)
  | inr (n, e) ↦ elim (Bool-cases (ltb_ℤ (pos 0) n.v_device_count)) [
    | inl given ↦ rw (e, v_device_count) (rw given (λ h. ground arith, λ (k, h). ground arith))
    | inr missing ↦
        rw (e, v_device_count) (rw missing (λ h. (refl, templates.0 h), λ (k, h). templates.1 h))
  ]
]
  where
    templates :
        (count_templates am.config am.config.templates ≡ panics) ↔ IsEmptyFirst am.config.templates
    templates = count_templates-panics_iff am.config am.config.templates
