-- ===== src/Base/Split.antt =====
-- A text cut at a character that one of its parts lacks.
use Prim.Native.Char.{Char}
use Prim.Native.String.{String, ◌++◌}
use mathlib.Core.Path.{◌≡◌, refl, sym, ◌∙◌}
use mathlib.Core.Logic.{◌≢◌}
use text.Mathlib.TextLemmas.{
  cons-append, nil-append, nil≢cons, head-eq_of_cons-eq, tail-eq_of_cons-eq,
}

abbrev pub Lacks : Char → String → Type 0
Lacks c String.[] = Unit {0}
Lacks c (String.◌∷◌ d s) = (d ≢ c) × Lacks c s

Lacks-later : (c : Char) (v s t : String) → Lacks c s → s ≢ v ++ String.◌∷◌ c t
Lacks-later c String.[] String.[] t h e = nil≢cons (e ∙ nil-append (String.◌∷◌ c t))
Lacks-later c String.[] (String.◌∷◌ d s) t h e =
    h.0 (head-eq_of_cons-eq (e ∙ nil-append (String.◌∷◌ c t)))
Lacks-later c (String.◌∷◌ x v) String.[] t h e = nil≢cons (e ∙ cons-append x v (String.◌∷◌ c t))
Lacks-later c (String.◌∷◌ x v) (String.◌∷◌ d s) t h e =
    Lacks-later c v s t h.1 (tail-eq_of_cons-eq (e ∙ cons-append x v (String.◌∷◌ c t)))

module _ (c : Char) (s t : String) where
  same_nil : String.[] ++ String.◌∷◌ c s ≡ String.[] ++ String.◌∷◌ c t → s ≡ t
  same_nil e =
      tail-eq_of_cons-eq (sym (nil-append (String.◌∷◌ c s)) ∙ e ∙ nil-append (String.◌∷◌ c t))

  -- At the first: the fronts lack the character.
  pub split_first :
      (u v : String)
      → Lacks c u
      → Lacks c v
      → u ++ String.◌∷◌ c s ≡ v ++ String.◌∷◌ c t
      → (u ≡ v) × (s ≡ t)
  split_first String.[] String.[] h k e = (refl, same_nil e)
  split_first String.[] (String.◌∷◌ d v) h k e = absurd (
      k.0 (
        sym (
          head-eq_of_cons-eq
            (sym (nil-append (String.◌∷◌ c s)) ∙ e ∙ cons-append d v (String.◌∷◌ c t)))))
  split_first (String.◌∷◌ d u) String.[] h k e = absurd (
      h.0 (
        head-eq_of_cons-eq
          (sym (cons-append d u (String.◌∷◌ c s)) ∙ e ∙ nil-append (String.◌∷◌ c t))))
  split_first (String.◌∷◌ d u) (String.◌∷◌ x v) h k e =
      let both = sym (cons-append d u (String.◌∷◌ c s)) ∙ e ∙ cons-append x v (String.◌∷◌ c t) in
      let same : d ≡ x = head-eq_of_cons-eq both in
      let (more, rest) = split_first u v h.1 k.1 (tail-eq_of_cons-eq both) in
      (cc (same, more), rest)

  -- At the last: the ends lack it.
  pub split_last :
      (u v : String)
      → Lacks c s
      → Lacks c t
      → u ++ String.◌∷◌ c s ≡ v ++ String.◌∷◌ c t
      → (u ≡ v) × (s ≡ t)
  split_last String.[] String.[] h k e = (refl, same_nil e)
  split_last String.[] (String.◌∷◌ d v) h k e = absurd (
      Lacks-later c v s t h (
        tail-eq_of_cons-eq
          (sym (nil-append (String.◌∷◌ c s)) ∙ e ∙ cons-append d v (String.◌∷◌ c t))))
  split_last (String.◌∷◌ d u) String.[] h k e = absurd (
      Lacks-later c u t s k (
        tail-eq_of_cons-eq
          (sym (nil-append (String.◌∷◌ c t)) ∙ sym e ∙ cons-append d u (String.◌∷◌ c s))))
  split_last (String.◌∷◌ d u) (String.◌∷◌ x v) h k e =
      let both = sym (cons-append d u (String.◌∷◌ c s)) ∙ e ∙ cons-append x v (String.◌∷◌ c t) in
      let same : d ≡ x = head-eq_of_cons-eq both in
      let (more, rest) = split_last u v h k (tail-eq_of_cons-eq both) in (cc (same, more), rest)
