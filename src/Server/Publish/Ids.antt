-- ===== src/Server/Publish/Ids.antt =====
-- internal/server/server.go, apiDevices: the ids that kubelet gets.
use Prim.Native.String.{◌++◌}
use ascend_device_plugin.Base.{
  ℕ, ℤ, zero, suc, ◌+◌, pos, pos_part, String, ◌≡◌, ◌≢◌, refl, sym, subst, ap, ◌∙◌, inl, inr, List,
  [], ◌∷◌, Memᴰ, mem_split, Outcome, returns, panics, and_then, arith,
}
use mathlib.Core.List
use ascend_device_plugin.Base.Text.{itoa}
use ascend_device_plugin.Base.Split.{split_last}
use ascend_device_plugin.Base.Decimal.{minus, one_char, read_decimal, read_decimal-itoa, itoa-Lacks}
use ascend_device_plugin.Manager.State.{Device}
use ascend_device_plugin.Server.Plugin.{Manager}
use ascend_device_plugin.Server.Publish.{ApiDevice, slices, all_slices, api_devices}
use ascend_device_plugin.Server.Publish.Slices.{slice, slices-mem, all_slices-mem}

-- An id determines the uuid and the index, whatever the uuid is.
slice-id :
    (dev dev' : Device) (i j : ℕ)
    → (slice dev i).id ≡ (slice dev' j).id
    → (dev.uuid ≡ dev'.uuid) × (i ≡ j)
slice-id dev dev' i j e =
    let both =
      ap (◌++◌ dev.uuid) (sym (one_char minus (itoa (pos i))))
      ∙ e
      ∙ ap (◌++◌ dev'.uuid) (one_char minus (itoa (pos j))) in
    let (same, texts) =
      split_last minus (itoa (pos i)) (itoa (pos j)) dev.uuid dev'.uuid (itoa-Lacks i)
        (itoa-Lacks j) both in
    (same, sym (read_decimal-itoa i) ∙ ap (read_decimal 0) texts ∙ read_decimal-itoa j)

-- No two members have the same text.
module _ {A : Type 0} (text : A → String) where
  abbrev pub AreDistinct : List A → Type 0
  AreDistinct [] = Unit {0}
  AreDistinct (x ∷ xs) = ((y : A) → Memᴰ y xs → text x ≢ text y) × AreDistinct xs

  append-AreDistinct :
      (xs ys : List A)
      → AreDistinct xs
      → AreDistinct ys
      → ((x y : A) → Memᴰ x xs → Memᴰ y ys → text x ≢ text y)
      → AreDistinct (List.◌++◌ xs ys)
  append-AreDistinct [] ys h k apart = k
  append-AreDistinct (x ∷ xs) ys h k apart = (
    λ y m. elim (mem_split xs ys m) [
      | inl here ↦ h.0 y here
      | inr there ↦ apart x y (Memᴰ.head refl) there
    ],
    append-AreDistinct xs ys h.1 k (λ z y m n. apart z y (Memᴰ.tail m) n),
  )

slices-AreDistinct : (dev : Device) (from n : ℕ) → AreDistinct (λ x. x.id) (slices dev from n)
unfolding slices
slices-AreDistinct dev from zero = tt
slices-AreDistinct dev from (suc n) = (
  λ y m e.
      let (i, less, at) = slices-mem dev (suc from) n y m in
      let same : from ≡ suc from + i =
        (slice-id dev dev from (suc from + i) (e ∙ ap (λ x. x.id) at)).1 in
      omega arith,
  slices-AreDistinct dev (suc from) n,
)

all_slices-AreDistinct :
    (n : ℕ) (devs : List Device)
    → AreDistinct (λ dev. dev.uuid) devs
    → AreDistinct (λ x. x.id) (all_slices n devs)
unfolding all_slices
all_slices-AreDistinct n [] h = tt
all_slices-AreDistinct n (dev ∷ devs) h =
    append-AreDistinct (λ x. x.id) (slices dev 0 n) (all_slices n devs) (slices-AreDistinct dev 0 n)
      (all_slices-AreDistinct n devs h.1)
      λ x y m k e.
        let (i, _, at) = slices-mem dev 0 n x m in
        let (other, j, there, _, at') = all_slices-mem n devs y k in
        h.0 other there
          (slice-id dev other (0 + i) j (sym (ap (λ z. z.id) at) ∙ e ∙ ap (λ z. z.id) at')).0

-- Where no two devices have the same uuid, no two of the published devices have the same id, whatever
-- characters the uuids have.
pub api_devices-AreDistinct :
    (mgr : Manager) (xs : List ApiDevice)
    → AreDistinct (λ dev. dev.uuid) mgr.devices
    → api_devices mgr ≡ returns xs
    → AreDistinct (λ x. x.id) xs
unfolding api_devices
api_devices-AreDistinct mgr xs h e = go mgr.v_device_count e
  where
    go :
        (count : Outcome ℤ)
        → and_then count (λ v_count. returns (all_slices (pos_part v_count) mgr.devices))
          ≡ returns xs
        → AreDistinct (λ x. x.id) xs
    go panics e = cc
    go (returns v_count) e =
        let same : all_slices (pos_part v_count) mgr.devices ≡ xs = ground arith in
        subst (AreDistinct (λ x. x.id)) same
          (all_slices-AreDistinct (pos_part v_count) mgr.devices h)
