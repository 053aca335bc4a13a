-- ===== src/Manager/Select/Candidates.antt =====
-- internal/manager/manager.go, pickFromCandidates: which of several candidates is taken.
use mathlib.Core.List.{append_assoc}
use ascend_device_plugin.Base.{
  ℕ, ℤ, pos, negsuc, true, false, ◌≡◌, refl, sym, subst, ◌⊎◌, inl, inr, List, [], ◌∷◌, ◌++◌, some,
  Memᴰ, Outcome, returns, get_elem?, ◌≢◌, Bool-cases,
}
use ascend_device_plugin.Config.{VnpuConfig}
use ascend_device_plugin.Manager.Select.Order.{
  NoneOf, FirstOf, Ascending, NoneOf-cons, FirstOf-cons, FirstOf-middle, FirstOf-head,
  Ascending-right, Ascending-drop,
}
use ascend_device_plugin.Manager.Select.{
  has_memory_band, config_matches_memory, scan_candidates, pick_from_candidates,
}

abbrev pub Entry : List VnpuConfig → ℕ → (VnpuConfig → Type 0) → Type 0
Entry configs i P = (c : VnpuConfig) × (get_elem? configs i ≡ some c) × P c

abbrev pub Fits : List VnpuConfig → ℕ → ℕ → Type 0
Fits configs m i =
    Entry configs i λ c. (has_memory_band c ≡ true) × (config_matches_memory c m ≡ true)

abbrev pub IsFree : List VnpuConfig → ℕ → Type 0
IsFree configs i = Entry configs i λ c. has_memory_band c ≡ false

-- The first entry whose band holds the reading; else the first with no band; else the first.
abbrev pub Best : List VnpuConfig → ℕ → ℕ → List ℕ → ℕ → Type 0
Best configs m first idxs i =
    FirstOf idxs (Fits configs m) i
    ⊎ (NoneOf idxs (Fits configs m)
        × (FirstOf idxs (IsFree configs) i ⊎ ((i ≡ first) × NoneOf idxs (IsFree configs))))

entry_unique :
    (configs : List VnpuConfig) (i : ℕ) (c c' : VnpuConfig)
    → get_elem? configs i ≡ some c
    → get_elem? configs i ≡ some c'
    → c ≡ c'
entry_unique configs i c c' e e' = cc

append_cons-ne-nil : (us : List ℕ) (i : ℕ) → us ++ i ∷ [] ≢ []
append_cons-ne-nil [] i h = cc
append_cons-ne-nil (u ∷ us) i h = cc

module _ (configs : List VnpuConfig) (m : ℕ) (In : ℕ → Type 0) where
  -- Every candidate points at an entry.
  abbrev Points : List ℕ → Type 0
  Points [] = Unit {0}
  Points (i ∷ idxs) = Entry configs i (λ _. In i) × Points idxs

  abbrev Free : List ℕ → Type 0
  Free [] = Unit {0}
  Free (u ∷ us) = (In u × IsFree configs u) × Free us

  Free-snoc : (us : List ℕ) (i : ℕ) → Free us → In i → IsFree configs i → Free (us ++ i ∷ [])
  Free-snoc [] i f n h = ((n, h), tt)
  Free-snoc (u ∷ us) i f n h = (f.0, Free-snoc us i f.1 n h)

  abbrev Scanned : ℕ → List ℕ → List ℕ → Outcome ℤ → Type 0
  Scanned first us idxs r =
      (i : ℕ) × In i
      × (r ≡ returns (pos i))
      × (FirstOf idxs (Fits configs m) i
          ⊎ (NoneOf idxs (Fits configs m)
              × (FirstOf (us ++ idxs) (IsFree configs) i
                  ⊎ ((i ≡ first) × (us ≡ []) × NoneOf idxs (IsFree configs)))))

  none_left :
      (first : ℕ) (us : List ℕ)
      → In first
      → Free us
      → Ascending (us ++ [])
      → Scanned first us [] (scan_candidates configs m first us [])
  unfolding scan_candidates
  none_left first [] n f up =
      (first, n, refl, inr (λ j h. elim h [ ], inr (refl, refl, λ j h. elim h [ ])))
  none_left first (u ∷ us) n f up = (
    u,
    f.0.0,
    refl,
    inr (λ j h. elim h [ ], inl (FirstOf-head (IsFree configs) u (us ++ []) up f.0.1)),
  )

  -- An entry with a band that does not hold the reading is passed over.
  pass_over :
      (first : ℕ) (us : List ℕ) (i : ℕ) (idxs : List ℕ) (r : Outcome ℤ) (c : VnpuConfig)
      → get_elem? configs i ≡ some c
      → has_memory_band c ≡ true
      → config_matches_memory c m ≡ false
      → Scanned first us idxs r
      → Scanned first us (i ∷ idxs) r
  pass_over first us i idxs r c e b miss (x, n, er, inl fits) =
      (x, n, er, inl (FirstOf-cons _ i x idxs (λ (c', e', h). cc) fits))
  pass_over first us i idxs r c e b miss (x, n, er, inr (none_fit, rest)) = (
    x,
    n,
    er,
    inr (
      NoneOf-cons _ i idxs (λ (c', e', h). cc) none_fit,
      elim rest [
        | inl free ↦ inl (FirstOf-middle _ us i x idxs (λ (c', e', b'). cc) free)
        | inr (eq, nil, none_free) ↦
            inr (eq, nil, NoneOf-cons _ i idxs (λ (c', e', b'). cc) none_free)
      ],
    ),
  )

  -- An entry with no band is kept in reserve.
  reserve :
      (first : ℕ) (us : List ℕ) (i : ℕ) (idxs : List ℕ) (r : Outcome ℤ) (c : VnpuConfig)
      → get_elem? configs i ≡ some c
      → has_memory_band c ≡ false
      → Scanned first (us ++ i ∷ []) idxs r
      → Scanned first us (i ∷ idxs) r
  reserve first us i idxs r c e b (x, n, er, inl fits) =
      (x, n, er, inl (FirstOf-cons _ i x idxs (λ (c', e', h). cc) fits))
  reserve first us i idxs r c e b (x, n, er, inr (none_fit, rest)) = (
    x,
    n,
    er,
    inr (
      NoneOf-cons _ i idxs (λ (c', e', h). cc) none_fit,
      elim rest [
        | inl free ↦
            inl (subst (λ l. FirstOf l (IsFree configs) x) (append_assoc us (i ∷ []) idxs) free)
        | inr (eq, nil, none_free) ↦ absurd (append_cons-ne-nil us i nil)
      ],
    ),
  )

  scan :
      (first : ℕ) (us idxs : List ℕ)
      → In first
      → Free us
      → Points idxs
      → Ascending (us ++ idxs)
      → Scanned first us idxs (scan_candidates configs m first us idxs)
  unfolding scan_candidates
  scan first us [] n f p up = none_left first us n f up
  scan first us (i ∷ idxs) n f ((c, e, n'), p) up = elim (Bool-cases (has_memory_band c)) [
    | inr b ↦
        rw (e, scan_candidates)
          (rw (b, scan_candidates)
            (reserve first us i idxs _ c e b (
              scan first (us ++ i ∷ []) idxs n (Free-snoc us i f n' (c, e, b)) p
                (subst Ascending (sym (append_assoc us (i ∷ []) idxs)) up))))
    | inl b ↦ elim (Bool-cases (config_matches_memory c m)) [
      | inl hit ↦
          rw (e, scan_candidates)
            (rw (b, scan_candidates)
              (rw (hit, scan_candidates)
                (
                  i,
                  n',
                  refl,
                  inl (FirstOf-head _ i idxs (Ascending-right us (i ∷ idxs) up) (c, e, (b, hit))),
                )))
      | inr miss ↦
          rw (e, scan_candidates)
            (rw (b, scan_candidates)
              (rw (miss, scan_candidates)
                (pass_over first us i idxs _ c e b miss
                  (scan first us idxs n f p (Ascending-drop us i idxs up)))))
    ]
  ]

-- Where the answer points.
abbrev pub Picked : List VnpuConfig → ℕ → List ℕ → Outcome ℤ → Type 0
Picked configs m idxs r =
    ((idxs ≡ []) × (r ≡ returns (negsuc 0)))
    ⊎ ((i first : ℕ) × (rest : List ℕ) × (idxs ≡ first ∷ rest)
        × Memᴰ i idxs
        × (r ≡ returns (pos i))
        × ((rest ≡ []) ⊎ Best configs m first idxs i))

Points-of :
    (configs : List VnpuConfig) (m : ℕ) (orig idxs : List ℕ)
    → ((j : ℕ) → Memᴰ j idxs → Entry configs j (λ _. Memᴰ j orig))
    → Points configs m (λ j. Memᴰ j orig) idxs
Points-of configs m orig [] h = tt
Points-of configs m orig (i ∷ idxs) h =
    (h i (Memᴰ.head refl), Points-of configs m orig idxs (λ j k. h j (Memᴰ.tail k)))

-- Given candidates that point at entries, one of them is picked: the only one, or the best.
pub pick_lem :
    (configs : List VnpuConfig) (m : ℕ) (idxs : List ℕ)
    → ((j : ℕ) → Memᴰ j idxs → Entry configs j (λ _. Unit {0}))
    → Ascending idxs
    → Picked configs m idxs (pick_from_candidates configs idxs m)
unfolding pick_from_candidates
pick_lem configs m [] h up = inl (refl, refl)
pick_lem configs m (i ∷ []) h up = inr (i, i, [], refl, Memᴰ.head refl, refl, inl refl)
pick_lem configs m (i ∷ j ∷ idxs) h up =
    let all = i ∷ j ∷ idxs in
    let (x, n, er, best) =
      scan configs m (λ k. Memᴰ k all) i [] all (Memᴰ.head refl) tt
        (Points-of configs m all all (λ k mem. let (c, e, _) = h k mem in (c, e, mem))) up in
    inr (
      x,
      i,
      j ∷ idxs,
      refl,
      n,
      er,
      inr (elim best [
        | inl fits ↦ inl fits
        | inr (none_fit, inl free) ↦ inr (none_fit, inl free)
        | inr (none_fit, inr (eq, _, none_free)) ↦ inr (none_fit, inr (eq, none_free))
      ]),
    )
