-- ===== src/Base/Lists.antt =====
-- Lists measured and indexed by native numbers, under the library's names.
use Prim.Native.Nat.{ℕ, zero, suc, ◌+◌, ◌-◌}
use mathlib.Core.Path.{subst, refl, ◌≡◌}
use mathlib.Core.Bool.{Bool}
use mathlib.Core.Logic.{◌↔◌, ◌⊎◌, inl, inr}
use mathlib.Core.List.{List, [], ◌∷◌, ◌++◌, Memᴰ}
use mathlib.Core.Option.{Option, none, some}
use native.Mathlib.Nat.{zero-add, suc-add}
use native.Mathlib.Omega.{arith}
use ascend_device_plugin.Base.Tests.{if◌then◌else◌}

module _ {ℓ} {A : Type ℓ} where
  abbrev pub length : List A → ℕ
  length [] = 0
  length (x ∷ xs) = suc (length xs)

  abbrev pub get_elem? : List A → ℕ → Option A
  get_elem? [] i = none
  get_elem? (x ∷ xs) zero = some x
  get_elem? (x ∷ xs) (suc i) = get_elem? xs i

  -- A write out of bounds changes nothing.
  abbrev pub set : List A → ℕ → A → List A
  set [] i v = []
  set (x ∷ xs) zero v = v ∷ xs
  set (x ∷ xs) (suc i) v = x ∷ set xs i v

  -- `filter` of the source's Boolean tests: one structural call.
  abbrev pub keep : (A → Bool) → List A → List A
  keep p [] = []
  keep p (x ∷ xs) = let rest = keep p xs in if p x then x ∷ rest else rest

  abbrev pub drop : ℕ → List A → List A
  drop zero xs = xs
  drop (suc n) [] = []
  drop (suc n) (x ∷ xs) = drop n xs

  pub length-append : (xs ys : List A) → length (xs ++ ys) ≡ length xs + length ys
  length-append [] ys = omega arith
  length-append (x ∷ xs) ys = omega (arith, length-append xs ys)

  -- What is read at a position past `pre` is read in the rest.
  pub get_elem?-append :
      (pre xs : List A) (i : ℕ) → get_elem? (pre ++ xs) (length pre + i) ≡ get_elem? xs i
  get_elem?-append [] xs i = rw zero-add
  get_elem?-append (p ∷ pre) xs i = rw suc-add (get_elem?-append pre xs i)

  pub drop-append : (xs ys : List A) (n : ℕ) → drop (length xs + n) (xs ++ ys) ≡ drop n ys
  drop-append [] ys n = rw zero-add
  drop-append (x ∷ xs) ys n = rw suc-add (drop-append xs ys n)

  pub length-drop : (n : ℕ) (xs : List A) → length (drop n xs) ≡ length xs - n
  length-drop zero xs = omega arith
  length-drop (suc n) [] = omega arith
  length-drop (suc n) (x ∷ xs) = omega (arith, length-drop n xs)

  pub mem_split : {x : A} (xs ys : List A) → Memᴰ x (xs ++ ys) → Memᴰ x xs ⊎ Memᴰ x ys
  mem_split [] ys m = inr m
  mem_split (x ∷ xs) ys (Memᴰ.head e) = inl (Memᴰ.head e)
  mem_split (x ∷ xs) ys (Memᴰ.tail m) = elim (mem_split xs ys m) [
    | inl here ↦ inl (Memᴰ.tail here)
    | inr later ↦ inr later
  ]

  pub mem_left : {x : A} (xs ys : List A) → Memᴰ x xs → Memᴰ x (xs ++ ys)
  mem_left [] ys m = elim m [ ]
  mem_left (x ∷ xs) ys (Memᴰ.head e) = Memᴰ.head e
  mem_left (x ∷ xs) ys (Memᴰ.tail m) = Memᴰ.tail (mem_left xs ys m)

  pub mem_right : {x : A} (xs ys : List A) → Memᴰ x ys → Memᴰ x (xs ++ ys)
  mem_right [] ys m = m
  mem_right (x ∷ xs) ys m = Memᴰ.tail (mem_right xs ys m)

  pub mem-singleton : {x y : A} → Memᴰ x (y ∷ []) → x ≡ y
  mem-singleton (Memᴰ.head e) = e
  mem-singleton (Memᴰ.tail m) = elim m [ ]

-- What a loop collects that adds the `R`-related values of each of its elements.
module _ {ℓ ℓ' ℓ''} {A : Type ℓ} {B : Type ℓ'} where
  abbrev pub Collects : (A → B → Type ℓ'') → List A → List B → Type (ℓ ⊔ ℓ' ⊔ ℓ'')
  Collects R xs ys = (y : B) → Memᴰ y ys ↔ ((x : A) × Memᴰ x xs × R x y)

  pub Collects-nil : (R : A → B → Type ℓ'') → Collects R [] []
  Collects-nil R y = (λ m. elim m [ ], none_in)
    where
      none_in : ((x : A) × Memᴰ x [] × R x y) → Memᴰ y []
      none_in (x, m, r) = elim m [ ]

  pub Collects-cons :
      (R : A → B → Type ℓ'') {x : A} {xs : List A} {here later : List B}
      → ((y : B) → Memᴰ y here ↔ R x y)
      → Collects R xs later
      → Collects R (x ∷ xs) (here ++ later)
  Collects-cons R {x = x} {xs = xs} {here = here} {later = later} now rest y = (
    λ m. elim (mem_split here later m) [
      | inl k ↦ (x, Memᴰ.head refl, (now y).0 k)
      | inr k ↦ let (z, there, r) = (rest y).0 k in (z, Memᴰ.tail there, r)
    ],
    back,
  )
    where
      back : ((z : A) × Memᴰ z (x ∷ xs) × R z y) → Memᴰ y (here ++ later)
      back (z, Memᴰ.head e, r) = mem_left here later ((now y).1 (subst (λ w. R w y) e r))
      back (z, Memᴰ.tail m, r) = mem_right here later ((rest y).1 (z, m, r))
