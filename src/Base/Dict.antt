-- ===== src/Base/Dict.antt =====
-- Go's map[string]V as an association list: `m[k]` by `lookup` and `m[k] = v` by `insert`.
use text.Mathlib.TextPositions.{eq_refl}
use Prim.Native.String.{String}
use mathlib.Core.Path.{◌≡◌, refl, ◌∙◌}
use mathlib.Core.Logic.{◌≢◌}
use mathlib.Core.Option.{Option, none, some}
use mathlib.Core.List.{List, [], ◌∷◌}
use native.Mathlib.Omega.{arith}
use text.Mathlib.Text.{◌==◌}
use text.Mathlib.TextEquality.{eq_iff}
use ascend_device_plugin.Base.Tests.{if◌then◌else◌}

abbrev pub Dict {ℓ} : Type ℓ → Type ℓ
Dict V = List (String × V)

module _ {ℓ} {V : Type ℓ} where
  unfoldable pub insert : String → V → Dict V → Dict V
  insert key new [] = (key, new) ∷ []
  insert key new ((at, old) ∷ entries) =
      if at == key then (key, new) ∷ entries else (at, old) ∷ insert key new entries

  unfoldable pub lookup : String → Dict V → Option V
  lookup key [] = none
  lookup key ((at, value) ∷ entries) = if at == key then some value else lookup key entries

  pub lookup-insert :
      (key sought : String) (new : V) (entries : Dict V)
      → lookup sought (insert key new entries)
        ≡ (if key == sought then some new else lookup sought entries)
  unfolding lookup insert
  lookup-insert key sought new [] = refl
  lookup-insert key sought new ((at, old) ∷ entries) = ground (
    arith,
    lookup-insert key sought new entries,
    eq_iff at sought,
    eq_iff at key,
    eq_iff key sought,
  )

  pub lookup-insert_self :
      (key : String) (new : V) (entries : Dict V) → lookup key (insert key new entries) ≡ some new
  lookup-insert_self key new entries =
      lookup-insert key key new entries ∙ ground (arith, eq_iff key key)

  pub lookup-insert_other :
      {key sought : String} (new : V) (entries : Dict V)
      → key ≢ sought
      → lookup sought (insert key new entries) ≡ lookup sought entries
  lookup-insert_other {key} {sought} new entries ne =
      lookup-insert key sought new entries ∙ ground (arith, eq_iff key sought)

  -- `for k, v := range from { to[k] = v }`: the keys of a map are distinct, so the order is immaterial.
  unfoldable pub copy_into : Dict V → Dict V → Dict V
  copy_into [] to = to
  copy_into ((k, v) ∷ m) to = insert k v (copy_into m to)

  pub lookup-copy_into :
      (j : String) (m to : Dict V)
      → lookup j (copy_into m to) ≡ elim (lookup j m) [ none ↦ lookup j to | some v ↦ some v ]
  unfolding lookup copy_into
  lookup-copy_into j [] to = refl
  lookup-copy_into j ((k, v) ∷ m) to =
      ground (arith, lookup-insert k j v (copy_into m to), lookup-copy_into j m to)

pub lookup-nil {ℓ} : {V : Type ℓ} (k : String) → lookup {V = V} k [] ≡ none
unfolding lookup
lookup-nil k = refl

pub ruleset dict_laws = (lookup-insert, lookup-nil, lookup-copy_into, eq_refl)
