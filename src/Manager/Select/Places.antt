-- ===== src/Manager/Select/Places.antt =====
-- internal/manager/manager.go, indexVNPUConfig: the places of the entries that pass a test, as candidates.
use ascend_device_plugin.Base.{
  ℕ, zero, suc, ◌+◌, pos, negsuc, Bool, true, ◌≡◌, refl, subst, ◌⊎◌, inl, inr, List, [], ◌∷◌, some,
  Memᴰ, returns, get_elem?, arith, Bool-cases,
}
use ascend_device_plugin.Config.{VnpuConfig}
use ascend_device_plugin.Manager.Select.{pick_from_candidates, indices_from}
use ascend_device_plugin.Manager.Select.Candidates.{Entry, Picked, pick_lem}
use ascend_device_plugin.Manager.Select.Order.{Ascending}

module _ (p : VnpuConfig → Bool) where
  abbrev pub Found : ℕ → List VnpuConfig → ℕ → Type 0
  Found k cs j = (i : ℕ) × (j ≡ k + i) × Entry cs i (λ c. p c ≡ true)

  later :
      (k : ℕ) (c : VnpuConfig) (cs : List VnpuConfig) (j : ℕ)
      → Found (suc k) cs j
      → Found k (c ∷ cs) j
  later k c cs j (i, e, x) = (suc i, omega arith, x)

  at_head :
      (k : ℕ) (c : VnpuConfig) (cs : List VnpuConfig) (j : ℕ) (rest : List ℕ)
      → p c ≡ true
      → (Memᴰ j rest → Found (suc k) cs j)
      → Memᴰ j (k ∷ rest)
      → Found k (c ∷ cs) j
  at_head k c cs j rest hit ih (Memᴰ.head e) = (0, omega arith, (c, refl, hit))
  at_head k c cs j rest hit ih (Memᴰ.tail m) = later k c cs j (ih m)

  pub mem-indices :
      (k : ℕ) (cs : List VnpuConfig) (j : ℕ) → Memᴰ j (indices_from p k cs) → Found k cs j
  unfolding indices_from
  mem-indices k [] j h = elim h [ ]
  mem-indices k (c ∷ cs) j h = elim (Bool-cases (p c)) [
    | inl hit ↦ at_head k c cs j _ hit (mem-indices (suc k) cs j) (rw hit at h)
    | inr miss ↦ later k c cs j (mem-indices (suc k) cs j (rw miss at h))
  ]

  indices-mem :
      (k : ℕ) (cs : List VnpuConfig) (i : ℕ) (c : VnpuConfig)
      → get_elem? cs i ≡ some c
      → p c ≡ true
      → Memᴰ (k + i) (indices_from p k cs)
  unfolding indices_from
  indices-mem k [] i c e h = cc
  indices-mem k (x ∷ cs) zero c e h =
      let hit : p x ≡ true = ground arith in rw hit (Memᴰ.head (omega arith))
  indices-mem k (x ∷ cs) (suc i) c e h =
      let there : Memᴰ (k + suc i) (indices_from p (suc k) cs) =
        subst (λ j. Memᴰ j (indices_from p (suc k) cs)) (omega arith)
          (indices-mem (suc k) cs i c e h) in
      elim (Bool-cases (p x)) [ inl hit ↦ rw hit (Memᴰ.tail there) | inr miss ↦ rw miss there ]

  indices-Ascending : (k : ℕ) (cs : List VnpuConfig) → Ascending (indices_from p k cs)
  unfolding indices_from
  indices-Ascending k [] = tt
  indices-Ascending k (c ∷ cs) = elim (Bool-cases (p c)) [
    | inl hit ↦ rw hit (
      λ j mem. let (i, e, _) = mem-indices (suc k) cs j mem in omega arith,
      indices-Ascending (suc k) cs,
    )
    | inr miss ↦ rw miss (indices-Ascending (suc k) cs)
  ]

  -- The candidates are the entries that pass the test, by their places.
  pub pick :
      (configs : List VnpuConfig) (m : ℕ)
      → Picked configs m
          (indices_from p 0 configs)
          (pick_from_candidates configs (indices_from p 0 configs) m)
  pick configs m =
      pick_lem configs m (indices_from p 0 configs)
        (λ j h.
          let (i, e, (c, at, _)) = mem-indices 0 configs j h in
          (c, subst (λ k. get_elem? configs k ≡ some c) (omega arith) at, tt))
        (indices-Ascending 0 configs)

  pub passes :
      (configs : List VnpuConfig) (i : ℕ)
      → Memᴰ i (indices_from p 0 configs)
      → Entry configs i (λ c. p c ≡ true)
  passes configs j h =
      let (i, e, x) = mem-indices 0 configs j h in
      subst (λ k. Entry configs k (λ c. p c ≡ true)) (omega arith) x

  pub is_candidate :
      (configs : List VnpuConfig) (i : ℕ) (c : VnpuConfig)
      → get_elem? configs i ≡ some c
      → p c ≡ true
      → Memᴰ i (indices_from p 0 configs)
  is_candidate configs i c e h =
      subst (λ k. Memᴰ k (indices_from p 0 configs)) (omega arith) (indices-mem 0 configs i c e h)

  -- Nothing passes, or the answer is the place of an entry that passes.
  pub pick_cases :
      (configs : List VnpuConfig) (m : ℕ)
      → (let r = pick_from_candidates configs (indices_from p 0 configs) m in
          ((r ≡ returns (negsuc 0))
            × ((i : ℕ) (c : VnpuConfig) → get_elem? configs i ≡ some c → p c ≡ true → ⊥))
          ⊎ ((i : ℕ) × (r ≡ returns (pos i)) × Entry configs i (λ c. p c ≡ true)))
  pick_cases configs m = elim (pick configs m) [
    | inl (nil, e) ↦
        inl (e, λ i c at h. elim (subst (Memᴰ i) nil (is_candidate configs i c at h)) [ ])
    | inr (i, first, rest, eq, mem, e, best) ↦ inr (i, e, passes configs i mem)
  ]
