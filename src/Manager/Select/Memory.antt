-- ===== src/Manager/Select/Memory.antt =====
-- internal/manager/manager.go, indexVNPUConfig: the memory reading chooses among the entries of a chip.
use ascend_device_plugin.Base.{
  ℕ, suc, ◌≤◌, pos, String, Bool, ◌≡◌, ◌≢◌, sym, ◌∙◌, subst, ◌⊎◌, inl, inr, List, [], ◌∷◌, some,
  Memᴰ, returns, get_elem?, arith, Bool-cases,
}
use ascend_device_plugin.Config.{VnpuConfig}
use ascend_device_plugin.Manager.Select.{indices_from, is_exact, index_vnpu_config}
use ascend_device_plugin.Manager.Select.Bands.{
  IsUnconstrained, IsConstrained, InBand, banded_iff, has_memory_band_iff,
}
use ascend_device_plugin.Manager.Select.Candidates.{Entry, Best}
use ascend_device_plugin.Manager.Select.Places.{pick, passes, is_candidate, mem-indices}
use ascend_device_plugin.Manager.Select.Choice.{HasName, Nobody, is_exact_iff, or_else_hit}

least :
    (p : VnpuConfig → Bool) (k : ℕ) (cs : List VnpuConfig) (first : ℕ) (rest : List ℕ) (j : ℕ)
    → indices_from p k cs ≡ first ∷ rest
    → Memᴰ j (indices_from p k cs)
    → first ≤ j
unfolding indices_from
least p k [] first rest j e mem = cc
least p k (c ∷ cs) first rest j e mem = elim (Bool-cases (p c)) [
  | inl hit ↦
      let head : k ≡ first = ground arith in
      let (i, at, _) = mem-indices p k (c ∷ cs) j mem in omega arith
  | inr miss ↦ least p (suc k) cs first rest j (rw miss at e) (rw miss at mem)
]

only_one : (first i j : ℕ) → Memᴰ i (first ∷ []) → Memᴰ j (first ∷ []) → i ≡ j
only_one first i j (Memᴰ.head e) (Memᴰ.head e') = e ∙ sym e'
only_one first i j (Memᴰ.head e) (Memᴰ.tail m) = elim m [ ]
only_one first i j (Memᴰ.tail m) m' = elim m [ ]

module _ (configs : List VnpuConfig) (chip_name dev_type : String) (m : ℕ) where
  -- The first entry of those that are meant.
  abbrev pub IsFirst : (VnpuConfig → Type 0) → ℕ → Type 0
  IsFirst P x =
      Entry configs x P × ((k : ℕ) (c : VnpuConfig) → get_elem? configs k ≡ some c → P c → x ≤ k)

  -- Among the entries of the chip: the first whose band holds the reading, or if there is none, the first
  -- without a band, or if there is none either, the first.
  abbrev pub Chosen : ℕ → Type 0
  Chosen x =
      IsFirst (λ c. HasName chip_name c × IsConstrained c × InBand c m) x
      ⊎ (Nobody configs (λ c. HasName chip_name c × IsConstrained c × InBand c m)
          × (IsFirst (λ c. HasName chip_name c × IsUnconstrained c) x
              ⊎ (Nobody configs (λ c. HasName chip_name c × IsUnconstrained c)
                  × ((k : ℕ) (c : VnpuConfig)
                      → get_elem? configs k ≡ some c
                      → HasName chip_name c
                      → x ≤ k))))

  candidates : List ℕ
  candidates = indices_from (is_exact chip_name) 0 configs

  candidate :
      (i : ℕ) (c : VnpuConfig)
      → get_elem? configs i ≡ some c
      → HasName chip_name c
      → Memᴰ i candidates
  unfolding candidates
  candidate i c at h =
      is_candidate (is_exact chip_name) configs i c at ((is_exact_iff chip_name c).1 h)

  chosen :
      (first x : ℕ) (rest : List ℕ)
      → candidates ≡ first ∷ rest
      → Memᴰ x candidates
      → Best configs m first candidates x
      → Chosen x
  unfolding candidates
  chosen first x rest eq mem best =
      let (c, at, hit) = passes (is_exact chip_name) configs x mem in
      let named : (c' : VnpuConfig) → get_elem? configs x ≡ some c' → HasName chip_name c' =
        λ c' at'.
          subst (HasName chip_name) {x = c} {y = c'} (cc) ((is_exact_iff chip_name c).0 hit) in
      elim best [
        | inl ((c', at', fits), before) ↦
            let (con, band) = (banded_iff c' m).0 fits in
            inl (
              (c', at', (named c' at', con, band)),
              λ k c'' at'' (h, con', band').
                  before k (candidate k c'' at'' h) (c'', at'', (banded_iff c'' m).1 (con', band')),
            )
        | inr (none_fit, other) ↦ inr (
          λ i c' at' (h, con, band).
              none_fit i (candidate i c' at' h) (c', at', (banded_iff c' m).1 (con, band)),
          elim other [
            | inl ((c', at', free), before) ↦ inl (
              (c', at', (named c' at', (has_memory_band_iff c').0 free)),
              λ k c'' at'' (h, free').
                  before k (candidate k c'' at'' h) (c'', at'', (has_memory_band_iff c'').1 free'),
            )
            | inr (same, none_free) ↦ inr (
              λ i c' at' (h, free).
                  none_free i (candidate i c' at' h) (c', at', (has_memory_band_iff c').1 free),
              λ k c' at' h.
                  subst (λ z. z ≤ k) (sym same)
                    (least (is_exact chip_name) 0 configs first rest k eq (candidate k c' at' h)),
            )
          ],
        )
      ]

  -- If two entries have the chip name, the answer is the place of one of them, chosen by the reading: the
  -- first whose band holds it, else the first without a band, else the first.
  pub index_vnpu_config-Chosen :
      (i j : ℕ) (c c' : VnpuConfig)
      → i ≢ j
      → get_elem? configs i ≡ some c
      → HasName chip_name c
      → get_elem? configs j ≡ some c'
      → HasName chip_name c'
      → (x : ℕ) × (index_vnpu_config configs chip_name dev_type m ≡ returns (pos x))
        × Entry configs x (HasName chip_name)
        × Chosen x
  unfolding index_vnpu_config candidates
  index_vnpu_config-Chosen i j c c' ne at h at' h' =
      let mem = is_candidate (is_exact chip_name) configs i c at ((is_exact_iff chip_name c).1 h) in
      let mem' =
        is_candidate (is_exact chip_name) configs j c' at' ((is_exact_iff chip_name c').1 h') in
      elim (pick (is_exact chip_name) configs m) [
        | inl (nil, e) ↦ elim (subst (Memᴰ i) nil mem) [ ]
        | inr (x, first, rest, eq, mem_x, e, inl nil) ↦
            absurd (ne (only_one first i j (rw (eq, nil) at mem) (rw (eq, nil) at mem')))
        | inr (x, first, rest, eq, mem_x, e, inr best) ↦
            let (cx, at_x, hit) = passes (is_exact chip_name) configs x mem_x in
            (
              x,
              or_else_hit _ _ x e,
              (cx, at_x, (is_exact_iff chip_name cx).0 hit),
              chosen first x rest eq mem_x best,
            )
      ]
