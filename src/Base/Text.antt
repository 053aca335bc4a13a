-- ===== src/Base/Text.antt =====
-- Texts: concatenation, Go's decimal printing, and when two formatted texts can be equal.
use Prim.Native.Nat.{ℕ, zero, suc, ◌/◌, ◌%◌}
use Prim.Native.String.{String, ◌∷◌, ◌++◌}
use Prim.Native.Char.{Char, code}
use mathlib.Core.Bool.{Bool, true}
use text.Mathlib.Text.{◌==◌}
use mathlib.Core.Path.{◌≡◌, ap, sym, ◌∙◌}
use mathlib.Core.Logic.{◌≢◌}
use text.Mathlib.TextLemmas.{cons-append, append_assoc, append_cancel_left, head-eq_of_cons-eq}
use ascend_device_plugin.Base.Int.{ℤ, pos, negsuc}
use ascend_device_plugin.Base.Tests.{ltb, if◌then◌else◌}

-- Two formats that part at a character after a common prefix give different texts.
pub formats-ne :
    (p : String) (c d : Char) (s t v w : String)
    → code c ≢ code d
    → (p ++ (c ∷ s)) ++ v ≢ (p ++ (d ∷ t)) ++ w
formats-ne p c d s t v w h e = h (
    ap code (
      head-eq_of_cons-eq (
        append_cancel_left p (c ∷ (s ++ v)) (d ∷ (t ++ w))
          (sym (regroup c s v) ∙ e ∙ regroup d t w))))
  where
    regroup : (x : Char) (r u : String) → (p ++ (x ∷ r)) ++ u ≡ p ++ (x ∷ (r ++ u))
    regroup x r u = append_assoc p (x ∷ r) u ∙ ap (◌++◌ p) (cons-append x r u)

unfoldable pub digit : ℕ → String
digit zero = "0"
digit (suc zero) = "1"
digit (suc (suc zero)) = "2"
digit (suc (suc (suc zero))) = "3"
digit (suc (suc (suc (suc zero)))) = "4"
digit (suc (suc (suc (suc (suc zero))))) = "5"
digit (suc (suc (suc (suc (suc (suc zero)))))) = "6"
digit (suc (suc (suc (suc (suc (suc (suc zero))))))) = "7"
digit (suc (suc (suc (suc (suc (suc (suc (suc zero)))))))) = "8"
digit _ = "9"

-- The digits of `n`, before `rest`; `n + 1` rounds are enough.
unfoldable pub digits : ℕ → ℕ → String → String
unfolding digit
digits zero n rest = rest
digits (suc fuel) n rest =
    let text = digit (n % 10) ++ rest in
    let more = digits fuel (n / 10) text in if ltb n 10 then text else more

-- `%d`, strconv.Itoa and strconv.FormatInt(x, 10).
unfoldable pub itoa : ℤ → String
unfolding digits
itoa (pos n) = digits (suc n) n ""
itoa (negsuc n) = "-" ++ digits (suc (suc n)) (suc n) ""

-- strings.HasSuffix.
unfoldable pub ends_with : String → String → Bool
ends_with String.[] t = "" == t
ends_with (String.◌∷◌ c s) t = let rest = ends_with s t in if (c ∷ s) == t then true else rest
