-- ===== src/Manager/Select.antt =====
-- internal/manager/manager.go, hasMemoryBand to indexVNPUConfig: which configuration entry a chip gets.
-- -1 is `negsuc 0`; `configs[i]` out of range is a panic.
pub mod Bands
pub mod Order
pub mod Candidates
pub mod Places
pub mod Choice
pub mod Memory
use ascend_device_plugin.Base.{
  ℕ, ℤ, pos, negsuc, String, Bool, true, false, not, ◌&&◌, ◌||◌, ◌==◌, List, [], ◌∷◌, ◌++◌, Option,
  none, some, Outcome, returns, panics, and_then, ltb, leb, eqb, ltb_ℤ, eqb_ℤ, suc, get_elem?,
  if◌then◌else◌,
}
use ascend_device_plugin.Base.Int.{to_uint64}
use ascend_device_plugin.Config.{VnpuConfig}

unfoldable pub has_memory_band : VnpuConfig → Bool
has_memory_band vnpu = ltb_ℤ (pos 0) vnpu.memory_match_min || ltb_ℤ (pos 0) vnpu.memory_match_max

unfoldable pub config_matches_memory : VnpuConfig → ℕ → Bool
unfolding has_memory_band
config_matches_memory vnpu memory_mb =
    if not (has_memory_band vnpu)
    then true
    else if eqb memory_mb 0
    then false
    else if ltb_ℤ (pos 0) vnpu.memory_match_min && ltb memory_mb (to_uint64 vnpu.memory_match_min)
    then false
    else if ltb_ℤ (pos 0) vnpu.memory_match_max && leb (to_uint64 vnpu.memory_match_max) memory_mb
    then false
    else true

-- unconstrained[0], or idxs[0] where there is none.
unfoldable pub fallback : List ℕ → ℕ → ℤ
fallback [] first = pos first
fallback (u ∷ us) first = pos u

-- The loop over several candidates; `first` is idxs[0].
unfoldable pub scan_candidates : List VnpuConfig → ℕ → ℕ → List ℕ → List ℕ → Outcome ℤ
unfolding fallback
scan_candidates configs memory_mb first unconstrained [] = returns (fallback unconstrained first)
scan_candidates configs memory_mb first unconstrained (i ∷ idxs) = elim (get_elem? configs i) [
  | none ↦ panics
  | some c ↦ elim (has_memory_band c) [
    | true ↦ elim (config_matches_memory c memory_mb) [
      | true ↦ returns (pos i)
      | false ↦ scan_candidates configs memory_mb first unconstrained idxs
    ]
    | false ↦ scan_candidates configs memory_mb first (unconstrained ++ i ∷ []) idxs
  ]
]

unfoldable pub pick_from_candidates : List VnpuConfig → List ℕ → ℕ → Outcome ℤ
pick_from_candidates configs [] memory_mb = returns (negsuc 0)
pick_from_candidates configs (i ∷ []) memory_mb = returns (pos i)
pick_from_candidates configs (i ∷ j ∷ idxs) memory_mb =
    scan_candidates configs memory_mb i [] (i ∷ j ∷ idxs)

-- The indices, from `i` on, of the entries that pass a test: the three collecting loops.
unfoldable pub indices_from : (VnpuConfig → Bool) → ℕ → List VnpuConfig → List ℕ
indices_from p i [] = []
indices_from p i (c ∷ cs) = let rest = indices_from p (suc i) cs in if p c then i ∷ rest else rest

unfoldable pub is_exact : String → VnpuConfig → Bool
is_exact chip_name vnpu = vnpu.chip_name == chip_name

unfoldable pub is_by_type : String → VnpuConfig → Bool
is_by_type dev_type vnpu = not (vnpu.dev_type == "") && vnpu.dev_type == dev_type

unfoldable pub is_typed : String → String → VnpuConfig → Bool
unfolding is_by_type
is_typed chip_name dev_type vnpu =
    is_by_type dev_type vnpu && (vnpu.chip_name == "" || vnpu.chip_name == chip_name)

-- `if idx := …; idx != -1 { return idx }`, and what follows.
unfoldable pub or_else : Outcome ℤ → Outcome ℤ → Outcome ℤ
or_else m next = and_then m λ idx. if not (eqb_ℤ idx (negsuc 0)) then returns idx else next

unfoldable pub index_vnpu_config : List VnpuConfig → String → String → ℕ → Outcome ℤ
unfolding or_else
index_vnpu_config configs chip_name dev_type memory_mb =
    or_else (pick_from_candidates configs (indices_from (is_exact chip_name) 0 configs) memory_mb) (
      or_else
        (pick_from_candidates configs (indices_from (is_typed chip_name dev_type) 0 configs)
          memory_mb)
        (pick_from_candidates configs (indices_from (is_by_type dev_type) 0 configs) memory_mb))
