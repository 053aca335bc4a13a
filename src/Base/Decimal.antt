-- ===== src/Base/Decimal.antt =====
-- Decimal texts: the digits that are printed are read back, so the printing has fuel enough.
use Prim.Native.Nat.{ℕ, zero, suc, ◌+◌, ◌-◌, ◌*◌, ◌/◌, ◌%◌, ◌<◌}
use Prim.Native.Char.{Char, code}
use Prim.Native.String.{String, ◌++◌}
use mathlib.Core.Path.{◌≡◌, refl, sym, ap, subst, ◌∙◌}
use mathlib.Core.Logic.{inl, inr}
use native.Mathlib.Omega.{arith}
use text.Mathlib.TextLemmas.{cons-append, nil-append}
use ascend_device_plugin.Base.Int.{pos}
use ascend_device_plugin.Base.Tests.{ltb, Bool-cases}
use ascend_device_plugin.Base.Text.{digit, digits, itoa}
use ascend_device_plugin.Base.Split.{Lacks}

-- The number that a text of digits stands for, behind the digits of `acc`.
unfoldable pub read_decimal : ℕ → String → ℕ
read_decimal acc String.[] = acc
read_decimal acc (String.◌∷◌ c s) = read_decimal (acc * 10 + (code c - 48)) s

pub one_char : (c : Char) (s : String) → String.◌∷◌ c String.[] ++ s ≡ String.◌∷◌ c s
one_char c s = cons-append c String.[] s ∙ ap (String.◌∷◌ c) (nil-append s)

abbrev pub minus : Char
minus = "-"

-- What holds of a digit's text holds of one character between "0" and "9".
digit-elim :
    (P : String → Type 0) (d : ℕ) (s : String)
    → d < 10
    → ((c : Char) → code c ≡ 48 + d → P (String.◌∷◌ c s))
    → P (digit d ++ s)
unfolding digit
digit-elim P zero s h f = subst P (sym (one_char "0" s)) (f "0" refl)
digit-elim P (suc zero) s h f = subst P (sym (one_char "1" s)) (f "1" refl)
digit-elim P (suc (suc zero)) s h f = subst P (sym (one_char "2" s)) (f "2" refl)
digit-elim P (suc (suc (suc zero))) s h f = subst P (sym (one_char "3" s)) (f "3" refl)
digit-elim P (suc (suc (suc (suc zero)))) s h f = subst P (sym (one_char "4" s)) (f "4" refl)
digit-elim P (suc (suc (suc (suc (suc zero))))) s h f = subst P (sym (one_char "5" s)) (f "5" refl)
digit-elim P (suc (suc (suc (suc (suc (suc zero)))))) s h f =
    subst P (sym (one_char "6" s)) (f "6" refl)
digit-elim P (suc (suc (suc (suc (suc (suc (suc zero))))))) s h f =
    subst P (sym (one_char "7" s)) (f "7" refl)
digit-elim P (suc (suc (suc (suc (suc (suc (suc (suc zero)))))))) s h f =
    subst P (sym (one_char "8" s)) (f "8" refl)
digit-elim P (suc (suc (suc (suc (suc (suc (suc (suc (suc zero))))))))) s h f =
    subst P (sym (one_char "9" s)) (f "9" refl)
digit-elim P (suc (suc (suc (suc (suc (suc (suc (suc (suc (suc n)))))))))) s h f =
    absurd (omega arith)

read_decimal-digit :
    (acc d : ℕ) (s : String)
    → d < 10
    → read_decimal acc (digit d ++ s) ≡ read_decimal (acc * 10 + d) s
unfolding read_decimal
read_decimal-digit acc d s h =
    digit-elim (λ t. read_decimal acc t ≡ read_decimal (acc * 10 + d) s) d s h
      λ c e. ap (λ k. read_decimal k s) (omega arith)

read_decimal-digits :
    (fuel n : ℕ) (s : String) → n < fuel → read_decimal 0 (digits fuel n s) ≡ read_decimal n s
unfolding digits
read_decimal-digits zero n s h = absurd (omega arith)
read_decimal-digits (suc fuel) n s h = elim (Bool-cases (ltb n 10)) [
  | inl last ↦
      rw (last, digits)
        (read_decimal-digit 0 (n % 10) s (omega arith) ∙ ap (λ k. read_decimal k s) (ground arith))
  | inr more ↦
      rw (more, digits)
        (read_decimal-digits fuel (n / 10) (digit (n % 10) ++ s) (ground arith)
          ∙ read_decimal-digit (n / 10) (n % 10) s (omega arith)
          ∙ ap (λ k. read_decimal k s) (omega arith))
]

digits-Lacks : (fuel n : ℕ) (s : String) → Lacks minus s → Lacks minus (digits fuel n s)
unfolding digits
digits-Lacks zero n s h = h
digits-Lacks (suc fuel) n s h =
    let here : Lacks minus (digit (n % 10) ++ s) =
      digit-elim (Lacks minus) (n % 10) s (omega arith)
        (λ c e. (λ q. let same : code c ≡ 45 = ap code q in omega arith, h)) in
    elim (Bool-cases (ltb n 10)) [
      | inl last ↦ rw (last, digits) here
      | inr more ↦ rw (more, digits) (digits-Lacks fuel (n / 10) _ here)
    ]

-- The decimal text of a number is read back as the number, so two numbers with one text are equal.
pub read_decimal-itoa : (n : ℕ) → read_decimal 0 (itoa (pos n)) ≡ n
unfolding itoa read_decimal
read_decimal-itoa n = read_decimal-digits (suc n) n "" (omega arith)

pub itoa-Lacks : (n : ℕ) → Lacks minus (itoa (pos n))
unfolding itoa
itoa-Lacks n = digits-Lacks (suc n) n "" tt
