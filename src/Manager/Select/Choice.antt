-- ===== src/Manager/Select/Choice.antt =====
-- internal/manager/manager.go, indexVNPUConfig: the entry that a chip gets, and when there is none.
use ascend_device_plugin.Base.{
  ℕ, ℤ, pos, negsuc, String, true, eq_iff, ◌≡◌, ◌≢◌, ◌↔◌, refl, ◌⊎◌, inl, inr, List, some, Outcome,
  returns, get_elem?, arith,
}
use ascend_device_plugin.Config.{VnpuConfig}
use ascend_device_plugin.Manager.Select.{
  pick_from_candidates, indices_from, is_exact, is_typed, is_by_type, or_else, index_vnpu_config,
}
use ascend_device_plugin.Manager.Select.Candidates.{Entry}
use ascend_device_plugin.Manager.Select.Places.{pick_cases}

abbrev pub HasName : String → VnpuConfig → Type 0
HasName chip_name c = c.chip_name ≡ chip_name

abbrev pub HasType : String → VnpuConfig → Type 0
HasType dev_type c = (c.dev_type ≢ "") × (c.dev_type ≡ dev_type)

abbrev pub Nobody : List VnpuConfig → (VnpuConfig → Type 0) → Type 0
Nobody configs P = (i : ℕ) (c : VnpuConfig) → get_elem? configs i ≡ some c → ¬ P c

-- An entry by its chip name; else by its type and no chip name; else by its type.
abbrev pub Suits : List VnpuConfig → String → String → VnpuConfig → Type 0
Suits configs chip_name dev_type c =
    HasName chip_name c
    ⊎ (Nobody configs (HasName chip_name)
        × HasType dev_type c
        × ((c.chip_name ≡ "") ⊎ Nobody configs (λ x. HasType dev_type x × (x.chip_name ≡ ""))))

pub is_exact_iff :
    (chip_name : String) (c : VnpuConfig) → (is_exact chip_name c ≡ true) ↔ HasName chip_name c
unfolding is_exact
is_exact_iff chip_name c = eq_iff c.chip_name chip_name

is_by_type_iff :
    (dev_type : String) (c : VnpuConfig) → (is_by_type dev_type c ≡ true) ↔ HasType dev_type c
unfolding is_by_type
is_by_type_iff dev_type c = ground (arith, eq_iff c.dev_type "", eq_iff c.dev_type dev_type)

is_typed_iff :
    (chip_name dev_type : String) (c : VnpuConfig)
    → (is_typed chip_name dev_type c ≡ true)
      ↔ (HasType dev_type c × ((c.chip_name ≡ "") ⊎ HasName chip_name c))
unfolding is_typed
is_typed_iff chip_name dev_type c = ground (
  arith,
  eq_iff c.dev_type "",
  eq_iff c.dev_type dev_type,
  eq_iff c.chip_name "",
  eq_iff c.chip_name chip_name,
)

pub or_else_hit :
    (r next : Outcome ℤ) (i : ℕ) → r ≡ returns (pos i) → or_else r next ≡ returns (pos i)
unfolding or_else
or_else_hit r next i e = rw (e, or_else) refl

or_else_miss : (r next : Outcome ℤ) → r ≡ returns (negsuc 0) → or_else r next ≡ next
unfolding or_else
or_else_miss r next e = rw (e, or_else) refl

module _ (configs : List VnpuConfig) (chip_name dev_type : String) (m : ℕ) where
  abbrev pub Answer : Outcome ℤ → Type 0
  Answer r =
      ((r ≡ returns (negsuc 0))
        × Nobody configs (HasName chip_name)
        × Nobody configs (HasType dev_type))
      ⊎ ((i : ℕ) × (r ≡ returns (pos i)) × Entry configs i (Suits configs chip_name dev_type))

  by_type :
      Nobody configs (HasName chip_name)
      → Nobody configs (λ x. HasType dev_type x × (x.chip_name ≡ ""))
      → Answer (pick_from_candidates configs (indices_from (is_by_type dev_type) 0 configs) m)
  by_type no_name no_typed = elim (pick_cases (is_by_type dev_type) configs m) [
    | inl (e, nobody) ↦
        inl (e, no_name, λ i c at h. nobody i c at ((is_by_type_iff dev_type c).1 h))
    | inr (i, e, (c, at, h)) ↦
        inr (i, e, (c, at, inr (no_name, (is_by_type_iff dev_type c).0 h, inr no_typed)))
  ]

  typed :
      Nobody configs (HasName chip_name)
      → Answer (
          or_else
            (pick_from_candidates configs (indices_from (is_typed chip_name dev_type) 0 configs) m)
            (pick_from_candidates configs (indices_from (is_by_type dev_type) 0 configs) m))
  typed no_name = elim (pick_cases (is_typed chip_name dev_type) configs m) [
    | inl (e, nobody) ↦ rw (or_else_miss _ _ e) (
        by_type no_name
          λ i c at h. nobody i c at ((is_typed_iff chip_name dev_type c).1 (h.0, inl h.1)))
    | inr (i, e, (c, at, h)) ↦
        let (of_type, name) = (is_typed_iff chip_name dev_type c).0 h in
        rw (or_else_hit _ _ i e) (
          inr (
            i,
            refl,
            (
              c,
              at,
              inr (
                no_name,
                of_type,
                inl (elim name [ inl nil ↦ nil | inr named ↦ absurd (no_name i c at named) ]),
              ),
            ),
          ))
  ]

  -- indexVNPUConfig never indexes out of range. It answers -1 exactly where no entry has the chip name
  -- and none has the (non-empty) device type, and otherwise the place of an entry: one with the chip
  -- name if there is one, else one of the type, then preferably one that names no chip.
  pub index_vnpu_config_lem : Answer (index_vnpu_config configs chip_name dev_type m)
  unfolding index_vnpu_config
  index_vnpu_config_lem = elim (pick_cases (is_exact chip_name) configs m) [
    | inl (e, nobody) ↦
        rw (or_else_miss _ _ e) (typed λ i c at h. nobody i c at ((is_exact_iff chip_name c).1 h))
    | inr (i, e, (c, at, h)) ↦
        rw (or_else_hit _ _ i e) (inr (i, refl, (c, at, inl ((is_exact_iff chip_name c).0 h))))
  ]
