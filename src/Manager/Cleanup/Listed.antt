-- ===== src/Manager/Cleanup/Listed.antt =====
-- internal/manager/manager.go, CleanupIdleVNPUs: the list of the vNPUs that a device has.
use ascend_device_plugin.Base.{
  ℕ, Bool, not, ◌≡◌, ◌≢◌, refl, sym, ap, ◌∙◌, inl, inr, List, [], ◌∷◌, ◌++◌, Memᴰ, arith, eqb, keep,
  mem_split, mem-singleton,
}
use ascend_device_plugin.Manager.Driver.{VDevInfo}

abbrev pub used : VDevInfo → Bool
used v = not (eqb v.is_container_used 0)

abbrev pub without : ℕ → List VDevInfo → List VDevInfo
without id = keep (λ v. not (eqb v.v_dev_id id))

-- A device lists no vNPU twice.
abbrev pub HasDistinctIds : List VDevInfo → Type 0
HasDistinctIds [] = Unit {0}
HasDistinctIds (v ∷ l) = ((u : VDevInfo) → Memᴰ u l → u.v_dev_id ≢ v.v_dev_id) × HasDistinctIds l

pub keep-append {ℓ} :
    {A : Type ℓ} (p : A → Bool) (xs ys : List A) → keep p (xs ++ ys) ≡ keep p xs ++ keep p ys
keep-append p [] ys = refl
keep-append p (x ∷ xs) ys = ground (arith, keep-append p xs ys)

pub without-apart :
    (id : ℕ) (l : List VDevInfo) → ((u : VDevInfo) → Memᴰ u l → u.v_dev_id ≢ id) → without id l ≡ l
without-apart id [] h = refl
without-apart id (v ∷ l) h =
    ground (arith, h v (Memᴰ.head refl), without-apart id l (λ u m. h u (Memᴰ.tail m)))

pub without-middle :
    (pre : List VDevInfo) (v : VDevInfo) (l : List VDevInfo)
    → ((u : VDevInfo) → Memᴰ u pre → u.v_dev_id ≢ v.v_dev_id)
    → ((u : VDevInfo) → Memᴰ u l → u.v_dev_id ≢ v.v_dev_id)
    → without v.v_dev_id (pre ++ v ∷ l) ≡ pre ++ l
without-middle pre v l h k = ground (
  arith,
  keep-append (λ u. not (eqb u.v_dev_id v.v_dev_id)) pre (v ∷ l),
  without-apart v.v_dev_id pre h,
  without-apart v.v_dev_id l k,
)

pub apart_passed :
    (pre : List VDevInfo) (v : VDevInfo) (l : List VDevInfo)
    → ((u : VDevInfo) → Memᴰ u l → u.v_dev_id ≢ v.v_dev_id)
    → ((u x : VDevInfo) → Memᴰ u pre → Memᴰ x l → u.v_dev_id ≢ x.v_dev_id)
    → (u x : VDevInfo) → Memᴰ u (pre ++ v ∷ [])
    → Memᴰ x l
    → u.v_dev_id ≢ x.v_dev_id
apart_passed pre v l h k u x m there = elim (mem_split pre (v ∷ []) m) [
  | inl before ↦ k u x before there
  | inr here ↦ λ e. h x there (sym e ∙ ap (λ y. y.v_dev_id) (mem-singleton here))
]
