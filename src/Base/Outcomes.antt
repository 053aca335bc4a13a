-- ===== src/Base/Outcomes.antt =====
-- A Go function's outcome. `Result` is the pair of a value and an `error`; `Outcome` adds the run-time
-- panic, for the functions that can index out of range or divide by zero.
use Prim.Native.String.{String}
use mathlib.Core.Path.{◌≡◌, refl}
use mathlib.Core.Logic.{◌⊎◌, inl, inr}
use mathlib.Core.Option.{Option, none, some}

-- `external` is an error of a library; `unmarshal_type` is encoding/json's UnmarshalTypeError by its
-- Field and Value; `message` is fmt.Errorf with no %w and `wrap` with one.
pub data Error : Type 0 where
  external : String → Error
  unmarshal_type : String → String → Error
  message : String → Error
  wrap : String → Error → Error

pub data Result {ℓ} (Value : Type ℓ) : Type ℓ where
  err : Error → Result Value
  ok : Value → Result Value

infixl 5 ◌>>=◌
abbrev pub ◌>>=◌ {ℓ κ} :
    {Now : Type ℓ} {Then : Type κ} → Result Now → (Now → Result Then) → Result Then
err failure >>= next = err failure
ok value >>= next = next value

-- `if err != nil { return fmt.Errorf("text: %w", err) }`
abbrev pub or_wrap {ℓ} : {A : Type ℓ} → String → Result A → Result A
or_wrap text (ok a) = ok a
or_wrap text (err e) = err (wrap text e)

abbrev pub or_fail {ℓ} : {A : Type ℓ} → Error → Option A → Result A
or_fail e none = err e
or_fail e (some a) = ok a

pub data Outcome {ℓ} (A : Type ℓ) : Type ℓ where
  returns : A → Outcome A
  panics : Outcome A

abbrev pub and_then {ℓ κ} : {A : Type ℓ} {B : Type κ} → Outcome A → (A → Outcome B) → Outcome B
and_then (returns a) f = f a
and_then panics f = panics

pub Result-cases {ℓ} :
    {A : Type ℓ} (r : Result A) → ((a : A) × (r ≡ ok a)) ⊎ ((e : Error) × (r ≡ err e))
Result-cases (ok a) = inl (a, refl)
Result-cases (err e) = inr (e, refl)

pub ok-eq-ok {ℓ} : {A : Type ℓ} {a b : A} → Path (Result A) (ok a) (ok b) → a ≡ b
ok-eq-ok h = cc

-- A chain that succeeds: its first part did, and its second did on the value of the first.
pub >>=-eq-ok {ℓ κ} :
    {Now : Type ℓ} {Then : Type κ} (first : Result Now) (next : Now → Result Then) {result : Then}
    → (first >>= next) ≡ ok result
    → (value : Now) × (first ≡ ok value) × (next value ≡ ok result)
>>=-eq-ok (err failure) next succeeds = cc
>>=-eq-ok (ok value) next succeeds = (value, refl, succeeds)
