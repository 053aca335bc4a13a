-- ===== src/Server/Allocate/Response/Gathering.antt =====
-- internal/server/allocate.go, the first loop of buildContainerAllocateResponse, without its accumulators.
use mathlib.Core.List.{append_assoc, append-nil}
use Prim.Native.String
use ascend_device_plugin.Base.{
  String, ◌==◌, eq_iff, ◌≡◌, refl, sym, ap, ◌∙◌, inl, inr, ◌⊎◌, List, [], ◌∷◌, ◌++◌, map, ℤ, Option,
  none, some, ok, err, Error, message, Option-cases, arith, if◌then◌else◌,
}
use ascend_device_plugin.Base.Dict.{Dict, lookup}
use ascend_device_plugin.Manager.State.{Device}
use ascend_device_plugin.Server.Plugin.{Manager, RuntimeInfo}
use ascend_device_plugin.Server.Allocate.Response.{Gathered, append_some, note_info, gather}

abbrev pub field_of : (RuntimeInfo → Option ℤ) → Option RuntimeInfo → Option ℤ
field_of field none = none
field_of field (some info) = field info

abbrev pub temp_of : Option RuntimeInfo → String
temp_of none = ""
temp_of (some info) = info.temp

append_some-append :
    (xs : List ℤ) (o : Option ℤ) (rest : List ℤ)
    → append_some xs o ++ rest ≡ xs ++ (append_some [] o ++ rest)
append_some-append xs none rest = refl
append_some-append xs (some x) rest = append_assoc xs (x ∷ []) rest

module _ (g : Gathered) where
  note_info-memories :
      (o : Option RuntimeInfo) (rest : List ℤ)
      → (note_info o g).memories ++ rest
        ≡ g.memories ++ (append_some [] (field_of (λ i. i.memory) o) ++ rest)
  unfolding note_info
  note_info-memories none rest = refl
  note_info-memories (some info) rest = append_some-append g.memories info.memory rest

  note_info-cores :
      (o : Option RuntimeInfo) (rest : List ℤ)
      → (note_info o g).cores ++ rest
        ≡ g.cores ++ (append_some [] (field_of (λ i. i.core) o) ++ rest)
  unfolding note_info
  note_info-cores none rest = refl
  note_info-cores (some info) rest = append_some-append g.cores info.core rest

  note_info-ids : (o : Option RuntimeInfo) → (note_info o g).ids ≡ g.ids
  unfolding note_info
  note_info-ids none = refl
  note_info-ids (some info) = refl

  note_info-spec :
      (o : Option RuntimeInfo) (rest : String)
      → (let spec = (note_info o g).ascend_vnpu_spec in
          (if spec == "" then rest else spec) ≡ (
            if g.ascend_vnpu_spec == ""
            then (if temp_of o == "" then rest else temp_of o)
            else g.ascend_vnpu_spec))
  unfolding note_info
  note_info-spec none rest = ground arith
  note_info-spec (some info) rest =
      ground (arith, eq_iff g.ascend_vnpu_spec "", eq_iff info.temp "")

module _ {D : Type 0} (uuid_of : D → String) (mgr : Manager) (infos : Dict RuntimeInfo) where
  -- The manager's devices for those of the annotation, in order.
  abbrev pub Resolves : List D → List Device → Type 0
  Resolves [] [] = Unit {0}
  Resolves [] (d ∷ ds) = ⊥
  Resolves (dev ∷ devs) [] = ⊥
  Resolves (dev ∷ devs) (d ∷ ds) = (mgr.device_by_uuid (uuid_of dev) ≡ some d) × Resolves devs ds

  abbrev pub info_of : D → Option RuntimeInfo
  info_of dev = lookup (uuid_of dev) infos

  -- The values that the runtime infos of the devices have, in order.
  abbrev pub values : (RuntimeInfo → Option ℤ) → List D → List ℤ
  values field [] = []
  values field (dev ∷ devs) = append_some [] (field_of field (info_of dev)) ++ values field devs

  -- The first template that is named.
  abbrev pub first_temp : List D → String
  first_temp [] = ""
  first_temp (dev ∷ devs) =
      let rest = first_temp devs in
      if temp_of (info_of dev) == "" then rest else temp_of (info_of dev)

  abbrev pub Gathers : List D → Gathered → Gathered → List Device → Type 0
  Gathers devs g g' ds =
      Resolves devs ds
      × (g'.ids ≡ g.ids ++ map (λ d. d.phy_id) ds)
      × (g'.memories ≡ g.memories ++ values (λ i. i.memory) devs)
      × (g'.cores ≡ g.cores ++ values (λ i. i.core) devs)
      × (g'.ascend_vnpu_spec
          ≡ (if g.ascend_vnpu_spec == "" then first_temp devs else g.ascend_vnpu_spec))

  unknown :
      (dev : D) (devs : List D)
      → mgr.device_by_uuid (uuid_of dev) ≡ none
      → (ds : List Device) → ¬ Resolves (dev ∷ devs) ds
  unknown dev devs p [] r = r
  unknown dev devs p (d ∷ ds) r = ground arith

  unresolved :
      (dev : D) (devs : List D)
      → ((ds : List Device) → ¬ Resolves devs ds)
      → (ds : List Device) → ¬ Resolves (dev ∷ devs) ds
  unresolved dev devs h [] r = r
  unresolved dev devs h (d ∷ ds) r = h ds r.1

  -- The loop fails exactly at an unknown uuid, and otherwise appends the values of all the devices.
  pub gather-cases :
      (devs : List D) (g : Gathered)
      → ((e : Error) × (gather uuid_of mgr infos devs g ≡ err e)
          × ((ds : List Device) → ¬ Resolves devs ds))
        ⊎ ((g' : Gathered) × (ds : List Device) × (gather uuid_of mgr infos devs g ≡ ok g')
            × Gathers devs g g' ds)
  unfolding gather
  gather-cases [] g = inr (
    g,
    [],
    refl,
    (
      tt,
      sym (append-nil _),
      sym (append-nil _),
      sym (append-nil _),
      ground (arith, eq_iff g.ascend_vnpu_spec ""),
    ),
  )
  gather-cases (dev ∷ devs) g = elim (Option-cases (mgr.device_by_uuid (uuid_of dev))) [
    | inl p ↦
        inl
          (message (String.◌++◌ "unknown uuid: " (uuid_of dev)), rw (p, gather), unknown dev devs p)
    | inr (d, p) ↦
        let info = info_of dev in
        let g₁ : Gathered = record g { ids = g.ids ++ d.phy_id ∷ [] } in
        elim (gather-cases devs (note_info info g₁)) [
          | inl (e, q, no_ds) ↦ inl (e, rw (p, gather) q, unresolved dev devs no_ds)
          | inr (g', ds, q, (known, ids, memories, cores, spec)) ↦ inr (
            g',
            d ∷ ds,
            rw (p, gather) q,
            (
              (p, known),
              ids
                  ∙ ap (λ xs. xs ++ map (λ x. x.phy_id) ds) (note_info-ids g₁ info)
                  ∙ append_assoc g.ids (d.phy_id ∷ []) _,
              memories ∙ note_info-memories g₁ info _,
              cores ∙ note_info-cores g₁ info _,
              spec ∙ note_info-spec g₁ info (first_temp devs),
            ),
          )
        ]
  ]
