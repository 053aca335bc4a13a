-- ===== src/Server/DeviceShare/Shared.antt =====
-- internal/server/device_share.go, enableNodeDeviceShare: which chips are set, and that nothing else is.
use ascend_device_plugin.Base.{
  String, true, false, ◌&&◌, ◌≡◌, ◌⊎◌, refl, inl, inr, List, [], ◌∷◌, none, Memᴰ, Result, ok, err,
  or_wrap, eqb_ℤ, arith, Bool-cases, Option-cases, Result-cases, sym, subst,
}
use ascend_device_plugin.Base.Int.{eqb_ℤ_iff}
use ascend_device_plugin.Manager.State.{Device}
use ascend_device_plugin.Server.Plugin.{Manager}
use ascend_device_plugin.Server.DeviceShare.{
  ChipKey, NpuSmi, Ran, before, share_command, share_chips, resolve_npu_smi, apply_device_share,
  enable_chips, chip_of, has_chip, add_chip, chip_set, enable_node_device_share,
}

has_chip-mem : (c : ChipKey) (chips : List ChipKey) → has_chip c chips ≡ true → Memᴰ c chips
unfolding has_chip
has_chip-mem c [] h = absurd (ground arith)
has_chip-mem c (x ∷ chips) h = elim (Bool-cases (eqb_ℤ c.card x.card && eqb_ℤ c.chip x.chip)) [
  | inl hit ↦ Memᴰ.head (ground (arith, eqb_ℤ_iff c.card x.card, eqb_ℤ_iff c.chip x.chip))
  | inr miss ↦ Memᴰ.tail (has_chip-mem c chips (rw miss at h))
]

mem-add_chip : (c : ChipKey) (chips : List ChipKey) → Memᴰ c (add_chip c chips)
unfolding add_chip
mem-add_chip c chips = elim (Bool-cases (has_chip c chips)) [
  | inl h ↦ rw (h, add_chip) (has_chip-mem c chips h)
  | inr h ↦ rw (h, add_chip) (Memᴰ.head refl)
]

keep-add_chip : (c x : ChipKey) (chips : List ChipKey) → Memᴰ x chips → Memᴰ x (add_chip c chips)
unfolding add_chip
keep-add_chip c x chips m = elim (Bool-cases (has_chip c chips)) [
  | inl h ↦ rw (h, add_chip) m
  | inr h ↦ rw (h, add_chip) (Memᴰ.tail m)
]

mem-chip_set :
    (dev : Device) (devs : List Device) → Memᴰ dev devs → Memᴰ (chip_of dev) (chip_set devs)
unfolding chip_set
mem-chip_set dev [] m = elim m [ ]
mem-chip_set dev (x ∷ devs) (Memᴰ.head e) =
    subst (λ y. Memᴰ (chip_of dev) (add_chip (chip_of y) (chip_set devs))) e
      (mem-add_chip (chip_of dev) (chip_set devs))
mem-chip_set dev (x ∷ devs) (Memᴰ.tail m) =
    keep-add_chip (chip_of x) (chip_of dev) (chip_set devs) (mem-chip_set dev devs m)

module _ (smi : NpuSmi) (flag : String) where
  abbrev pub IsShared : ChipKey → List (List String) → Type 0
  IsShared c commands =
      (bin : String) × Memᴰ (share_command bin c flag) commands
      × (smi.exec (share_command bin c flag) ≡ none)

  abbrev Shares : List ChipKey → Ran → Type 0
  Shares chips (r, commands) =
      (r ≡ ok tt → (c : ChipKey) → Memᴰ c chips → IsShared c commands)
      × ((command : List String)
          → Memᴰ command commands
          → (bin : String) × (c : ChipKey) × Memᴰ c chips × (command ≡ share_command bin c flag))

  only :
      (bin : String) (c : ChipKey) (chips : List ChipKey) (command : List String)
      → Memᴰ command (share_command bin c flag ∷ [])
      → (b : String) × (x : ChipKey) × Memᴰ x (c ∷ chips) × (command ≡ share_command b x flag)
  only bin c chips command (Memᴰ.head e) = (bin, c, Memᴰ.head refl, e)
  only bin c chips command (Memᴰ.tail m) = elim m [ ]

  more-set :
      (bin : String) (c : ChipKey) (chips : List ChipKey) (commands : List (List String))
      → smi.exec (share_command bin c flag) ≡ none
      → ((x : ChipKey) → Memᴰ x chips → IsShared x commands)
      → (x : ChipKey) → Memᴰ x (c ∷ chips)
      → IsShared x (share_command bin c flag ∷ commands)
  more-set bin c chips commands fine rest x (Memᴰ.head e) =
      subst (λ y. IsShared y (share_command bin c flag ∷ commands)) (sym e)
        (bin, Memᴰ.head refl, fine)
  more-set bin c chips commands fine rest x (Memᴰ.tail m) =
      let (b, there, ran) = rest x m in (b, Memᴰ.tail there, ran)

  more-only :
      (bin : String) (c : ChipKey) (chips : List ChipKey) (commands : List (List String))
      → ((command : List String)
          → Memᴰ command commands
          → (b : String) × (x : ChipKey) × Memᴰ x chips × (command ≡ share_command b x flag))
      → (command : List String) → Memᴰ command (share_command bin c flag ∷ commands)
      → (b : String) × (x : ChipKey) × Memᴰ x (c ∷ chips) × (command ≡ share_command b x flag)
  more-only bin c chips commands rest command (Memᴰ.head e) = (bin, c, Memᴰ.head refl, e)
  more-only bin c chips commands rest command (Memᴰ.tail m) =
      let (b, x, there, e) = rest command m in (b, x, Memᴰ.tail there, e)

  more :
      (bin : String) (c : ChipKey) (chips : List ChipKey) (r : Ran)
      → smi.exec (share_command bin c flag) ≡ none
      → Shares chips r
      → Shares (c ∷ chips) (before (share_command bin c flag) r)
  more bin c chips (r, commands) fine (set, only_these) =
      (λ h. more-set bin c chips commands fine (set h), more-only bin c chips commands only_these)

  share_chips-Shares : (chips : List ChipKey) → Shares chips (share_chips smi flag chips)
  unfolding share_chips
  share_chips-Shares [] = (λ h c m. elim m [ ], λ command m. elim m [ ])
  share_chips-Shares (c ∷ chips) = elim (Result-cases (resolve_npu_smi smi)) [
    | inr (e, p) ↦ rw (p, share_chips) (λ h. absurd (ground arith), λ command m. elim m [ ])
    | inl (bin, p) ↦ elim (Option-cases (smi.exec (share_command bin c flag))) [
      | inr ((e, out), q) ↦
          rw (p, share_chips)
            (rw q (λ h. absurd (ground arith), λ command m. only bin c chips command m))
      | inl q ↦ rw (p, share_chips) (rw q (more bin c chips _ q (share_chips-Shares chips)))
    ]
  ]

or_wrap-ok : (text : String) (r : Result (Unit {0})) → or_wrap text r ≡ ok tt → r ≡ ok tt
or_wrap-ok text (ok t) h = h
or_wrap-ok text (err e) h = absurd (ground arith)

module _ (order : List ChipKey → List ChipKey) (smi : NpuSmi)
    (ordered : (c : ChipKey) (chips : List ChipKey) → Memᴰ c chips → Memᴰ c (order chips)) where
  abbrev pub Enables : (ChipKey → Type 0) → Ran → Type 0
  Enables Wanted (r, commands) =
      (r ≡ ok tt → (c : ChipKey) → Wanted c → IsShared smi "1" c commands)
      × ((command : List String)
          → Memᴰ command commands
          → (bin : String) × (c : ChipKey) × (command ≡ share_command bin c "1"))

  enable_chips-Enables :
      (chips : List ChipKey) → Enables (λ c. Memᴰ c chips) (enable_chips order smi chips)
  unfolding enable_chips apply_device_share
  enable_chips-Enables [] = (λ h c m. elim m [ ], λ command m. elim m [ ])
  enable_chips-Enables (c ∷ chips) =
      let (set, only_these) = share_chips-Shares smi "1" (order (c ∷ chips)) in
      (
        λ h x m. set (or_wrap-ok "enable node device-share" _ h) x (ordered x (c ∷ chips) m),
        λ command m. let (bin, x, there, e) = only_these command m in (bin, x, e),
      )

  abbrev pub IsChipOf : Manager → ChipKey → Type 0
  IsChipOf mgr c = (dev : Device) × Memᴰ dev mgr.devices × (c ≡ chip_of dev)

  -- On a node without soft slicing enableNodeDeviceShare does nothing. Otherwise, for any order that
  -- leaves out no chip, it runs only commands that switch device-share on, and where it succeeds one was
  -- run with success for the chip of every device.
  pub enable_node_device_share-Enables :
      (mgr : Manager)
      → ((mgr.is_hami_vnpu_core ≡ false) × (enable_node_device_share order smi mgr ≡ (ok tt, [])))
        ⊎ ((mgr.is_hami_vnpu_core ≡ true)
            × Enables (IsChipOf mgr) (enable_node_device_share order smi mgr))
  unfolding enable_node_device_share
  enable_node_device_share-Enables mgr = elim (Bool-cases mgr.is_hami_vnpu_core) [
    | inr off ↦ inl (off, rw (off, enable_node_device_share) refl)
    | inl on ↦
        let (set, only_these) = enable_chips-Enables (chip_set mgr.devices) in
        inr (
          on,
          rw (on, enable_node_device_share)
              (
                λ h c (dev, m, e). set h c (
                    subst (λ x. Memᴰ x (chip_set mgr.devices)) (sym e)
                      (mem-chip_set dev mgr.devices m)),
                only_these,
              ),
        )
  ]
