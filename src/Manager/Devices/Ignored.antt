-- ===== src/Manager/Devices/Ignored.antt =====
-- internal/manager/manager.go, shouldIgnoreDevice: which devices are kept from HAMi.
use ascend_device_plugin.Base.{
  ℤ, String, Bool, true, false, ◌≡◌, ◌≢◌, ◌↔◌, ◌⊎◌, refl, subst, inl, inr, List, [], ◌∷◌, some,
  Memᴰ, arith, eq_iff, Bool-cases, Option-cases, eqb_ℤ, ◌==◌, not, ◌&&◌, ◌||◌, if◌then◌else◌,
}
use ascend_device_plugin.Base.Int.{eqb_ℤ_iff}
use ascend_device_plugin.Config.{NodeConfig, FilterDevices, is_empty}
use ascend_device_plugin.Manager.State.{
  AscendManager, should_ignore_device, should_check_ignored, lists_uuid, lists_index,
}

-- The filter names the device, by a uuid that is not empty or by the card's index.
abbrev pub Names : FilterDevices → String → ℤ → Type 0
Names f uuid index = ((uuid ≢ "") × Memᴰ uuid f.uuid) ⊎ Memᴰ index f.index

or_true : (b : Bool) → (b || true) ≡ true
or_true true = refl
or_true false = refl

lists_uuid_lem :
    (uuid : String) (l : List String) → lists_uuid uuid l ≡ true → (uuid ≢ "") × Memᴰ uuid l
unfolding lists_uuid
lists_uuid_lem uuid [] h = cc
lists_uuid_lem uuid (x ∷ l) h = elim (Bool-cases (not (uuid == "") && uuid == x)) [
  | inl hit ↦ (ground (arith, eq_iff uuid ""), Memᴰ.head (ground (arith, eq_iff uuid x)))
  | inr miss ↦ let (ne, m) = lists_uuid_lem uuid l (rw miss at h) in (ne, Memᴰ.tail m)
]

mem-lists_uuid :
    (uuid : String) (l : List String) → uuid ≢ "" → Memᴰ uuid l → lists_uuid uuid l ≡ true
unfolding lists_uuid
mem-lists_uuid uuid [] ne m = elim m [ ]
mem-lists_uuid uuid (x ∷ l) ne (Memᴰ.head e) = ground (arith, eq_iff uuid "", eq_iff uuid x)
mem-lists_uuid uuid (x ∷ l) ne (Memᴰ.tail m) = ground (arith, mem-lists_uuid uuid l ne m)

lists_index_lem : (index : ℤ) (l : List ℤ) → lists_index index l ≡ true → Memᴰ index l
unfolding lists_index
lists_index_lem index [] h = cc
lists_index_lem index (x ∷ l) h = elim (Bool-cases (eqb_ℤ index x)) [
  | inl hit ↦ Memᴰ.head ((eqb_ℤ_iff index x).0 hit)
  | inr miss ↦ Memᴰ.tail (lists_index_lem index l (rw miss at h))
]

mem-lists_index : (index : ℤ) (l : List ℤ) → Memᴰ index l → lists_index index l ≡ true
unfolding lists_index
mem-lists_index index [] m = elim m [ ]
mem-lists_index index (x ∷ l) (Memᴰ.head e) = rw ((eqb_ℤ_iff index x).1 e)
mem-lists_index index (x ∷ l) (Memᴰ.tail m) =
    rw (mem-lists_index index l m) (or_true (eqb_ℤ index x))

-- An empty filter names nothing, so testing for it first changes nothing.
body : (uuids : List String) (indices : List ℤ) (uuid : String) (index : ℤ) → Bool
body uuids indices uuid index =
    let f : FilterDevices = record { uuid = uuids; index = indices } in
    if not (not (is_empty f))
    then false
    else if lists_uuid uuid uuids
    then true
    else lists_index index indices

body-lists :
    (uuids : List String) (indices : List ℤ) (uuid : String) (index : ℤ)
    → body uuids indices uuid index ≡ (lists_uuid uuid uuids || lists_index index indices)
unfolding body is_empty lists_uuid lists_index
body-lists [] [] uuid index = refl
body-lists [] (i ∷ indices) uuid index = ground arith
body-lists (u ∷ uuids) indices uuid index = ground arith

Names-lists :
    (f : FilterDevices) (uuid : String) (index : ℤ)
    → ((lists_uuid uuid f.uuid || lists_index index f.index) ≡ true) ↔ Names f uuid index
Names-lists f uuid index = (
  λ h. elim (Bool-cases (lists_uuid uuid f.uuid)) [
    | inl hit ↦ inl (lists_uuid_lem uuid f.uuid hit)
    | inr miss ↦ inr (lists_index_lem index f.index (rw miss at h))
  ],
  λ n. elim n [
    | inl (ne, m) ↦ rw (mem-lists_uuid uuid f.uuid ne m)
    | inr m ↦ rw (mem-lists_index index f.index m) (or_true (lists_uuid uuid f.uuid))
  ],
)

-- A device is ignored exactly when the node has a configuration whose filter names it.
pub should_ignore_device_iff :
    (am : AscendManager) (uuid : String) (index : ℤ)
    → (should_ignore_device am uuid index ≡ true)
      ↔ ((n : NodeConfig) × (am.node_config ≡ some n) × Names n.filter_devices uuid index)
unfolding should_ignore_device should_check_ignored body
should_ignore_device_iff am uuid index = elim (Option-cases am.node_config) [
  | inl e ↦ (λ h. absurd (ground arith), λ (n, e', _). absurd (ground arith))
  | inr (n, e) ↦
      let f = n.filter_devices in
      rw (e, should_ignore_device, should_check_ignored)
        (rw (body-lists f.uuid f.index uuid index) (
          λ h. (n, refl, (Names-lists f uuid index).0 h),
          λ (n', e', m).
              let same : n' ≡ n = cc in
              (Names-lists f uuid index).1
                (subst {A = NodeConfig} (λ z. Names z.filter_devices uuid index) same m),
        ))
]
