-- ===== src/Manager/Select/Order.antt =====
-- internal/manager/manager.go, pickFromCandidates: the first of the candidates, by their places.
use ascend_device_plugin.Base.{
  ℕ, ◌≤◌, subst, arith, mem_left, mem_right, mem_split, inl, inr, List, [], ◌∷◌, ◌++◌, Memᴰ,
}

abbrev pub NoneOf : List ℕ → (ℕ → Type 0) → Type 0
NoneOf idxs P = (j : ℕ) → Memᴰ j idxs → ¬ P j

abbrev pub FirstOf : List ℕ → (ℕ → Type 0) → ℕ → Type 0
FirstOf idxs P i = P i × ((j : ℕ) → Memᴰ j idxs → P j → i ≤ j)

-- From each place on, the places grow.
abbrev pub Ascending : List ℕ → Type 0
Ascending [] = Unit {0}
Ascending (i ∷ idxs) = ((j : ℕ) → Memᴰ j idxs → i ≤ j) × Ascending idxs

pub NoneOf-cons :
    (P : ℕ → Type 0) (i : ℕ) (idxs : List ℕ) → ¬ P i → NoneOf idxs P → NoneOf (i ∷ idxs) P
NoneOf-cons P i idxs h t j (Memᴰ.head e) p = h (subst P e p)
NoneOf-cons P i idxs h t j (Memᴰ.tail m) p = t j m p

pub FirstOf-cons :
    (P : ℕ → Type 0) (i x : ℕ) (idxs : List ℕ) → ¬ P i → FirstOf idxs P x → FirstOf (i ∷ idxs) P x
FirstOf-cons P i x idxs h (p, least) = (p, go)
  where
    go : (j : ℕ) → Memᴰ j (i ∷ idxs) → P j → x ≤ j
    go j (Memᴰ.head e) pj = absurd (h (subst P e pj))
    go j (Memᴰ.tail k) pj = least j k pj

-- A place that is not meant may be dropped in the middle.
pub FirstOf-middle :
    (P : ℕ → Type 0) (us : List ℕ) (i x : ℕ) (idxs : List ℕ)
    → ¬ P i
    → FirstOf (us ++ idxs) P x
    → FirstOf (us ++ i ∷ idxs) P x
FirstOf-middle P us i x idxs h (p, least) = (
  p,
  λ j k pj. elim (mem_split us (i ∷ idxs) k) [
    | inl before ↦ least j (mem_left us idxs before) pj
    | inr (Memᴰ.head e) ↦ absurd (h (subst P e pj))
    | inr (Memᴰ.tail after) ↦ least j (mem_right us idxs after) pj
  ],
)

pub FirstOf-head :
    (P : ℕ → Type 0) (i : ℕ) (idxs : List ℕ) → Ascending (i ∷ idxs) → P i → FirstOf (i ∷ idxs) P i
FirstOf-head P i idxs (least, up) p = (p, go)
  where
    go : (j : ℕ) → Memᴰ j (i ∷ idxs) → P j → i ≤ j
    go j (Memᴰ.head e) pj = omega (arith, e)
    go j (Memᴰ.tail k) pj = least j k

pub Ascending-right : (us idxs : List ℕ) → Ascending (us ++ idxs) → Ascending idxs
Ascending-right [] idxs up = up
Ascending-right (u ∷ us) idxs up = Ascending-right us idxs up.1

pub Ascending-drop :
    (us : List ℕ) (i : ℕ) (idxs : List ℕ) → Ascending (us ++ i ∷ idxs) → Ascending (us ++ idxs)
Ascending-drop [] i idxs up = up.1
Ascending-drop (u ∷ us) i idxs (least, up) = (
  λ j k. elim (mem_split us idxs k) [
    | inl before ↦ least j (mem_left us (i ∷ idxs) before)
    | inr after ↦ least j (mem_right us (i ∷ idxs) (Memᴰ.tail after))
  ],
  Ascending-drop us i idxs up,
)
