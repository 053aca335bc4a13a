-- ===== src/Server/Publish/Fingerprint.antt =====
-- internal/server/register.go, deviceFingerprint: when two fingerprints agree.
use Prim.Native.Char.{Char, code}
use Prim.Native.String.{◌++◌}
use text.Mathlib.TextLemmas.{
  cons-append, nil-append, cons≢nil, head-eq_of_cons-eq, tail-eq_of_cons-eq,
}
use ascend_device_plugin.Base.Split.{Lacks, split_first}
use ascend_device_plugin.Base.{
  String, Bool, true, false, ◌≡◌, ◌≢◌, ◌↔◌, refl, List, [], ◌∷◌, map, arith, ap, sym, ◌∙◌, inl, inr,
  Bool-cases, Memᴰ,
}
use ascend_device_plugin.Manager.State.{Device}
use ascend_device_plugin.Server.Publish.{fingerprint}

abbrev pub equals : Char
equals = "="

-- What follows '=' in the text of a device.
after : Bool → String → String
after true s = String.◌∷◌ "1" (String.◌∷◌ ";" s)
after false s = String.◌∷◌ "0" (String.◌∷◌ ";" s)

one_zero : ◌≢◌ {A = Char} "1" "0"
one_zero e = let codes = ap code e in omega arith

after_inj : (a b : Bool) (s t : String) → after a s ≡ after b t → (a ≡ b) × (s ≡ t)
unfolding after
after_inj true true s t e = (refl, tail-eq_of_cons-eq (tail-eq_of_cons-eq e))
after_inj false false s t e = (refl, tail-eq_of_cons-eq (tail-eq_of_cons-eq e))
after_inj true false s t e = absurd (one_zero (head-eq_of_cons-eq e))
after_inj false true s t e = absurd (one_zero (sym (head-eq_of_cons-eq e)))

mark-cons :
    (d : Char) (s : String)
    → String.◌∷◌ equals (String.◌∷◌ d ";") ++ s
      ≡ String.◌∷◌ equals (String.◌∷◌ d (String.◌∷◌ ";" s))
mark-cons d s =
    cons-append equals (String.◌∷◌ d ";") s
    ∙ ap (String.◌∷◌ equals) (
        cons-append d ";" s
        ∙ ap (String.◌∷◌ d) (cons-append ";" "" s ∙ ap (String.◌∷◌ ";") (nil-append s)))

fingerprint-cons :
    (dev : Device) (devs : List Device)
    → fingerprint (dev ∷ devs) ≡ dev.uuid ++ String.◌∷◌ equals (after dev.health (fingerprint devs))
unfolding fingerprint after
fingerprint-cons dev devs = elim (Bool-cases dev.health) [
  | inl h ↦ rw h (ap (◌++◌ dev.uuid) (mark-cons "1" (fingerprint devs)))
  | inr h ↦ rw h (ap (◌++◌ dev.uuid) (mark-cons "0" (fingerprint devs)))
]

not_nil : (u : String) (c : Char) (s : String) → u ++ String.◌∷◌ c s ≢ ""
not_nil String.[] c s e = cons≢nil (sym (nil-append (String.◌∷◌ c s)) ∙ e)
not_nil (String.◌∷◌ d u) c s e = cons≢nil (sym (cons-append d u (String.◌∷◌ c s)) ∙ e)

-- The devices as kubelet is told of them.
abbrev pub shown : Device → String × Bool
shown dev = (dev.uuid, dev.health)

abbrev pub AllPlain : List Device → Type 0
AllPlain devs = (dev : Device) → Memᴰ dev devs → Lacks equals dev.uuid

fingerprint_inj :
    (devs devs' : List Device)
    → AllPlain devs
    → AllPlain devs'
    → fingerprint devs ≡ fingerprint devs'
    → map shown devs ≡ map shown devs'
fingerprint_inj [] [] h k e = refl
fingerprint_inj [] (dev ∷ devs) h k e = absurd (
    not_nil dev.uuid equals (after dev.health (fingerprint devs))
      (sym (fingerprint-cons dev devs) ∙ sym e ∙ (unfold fingerprint in refl)))
fingerprint_inj (dev ∷ devs) [] h k e = absurd (
    not_nil dev.uuid equals (after dev.health (fingerprint devs))
      (sym (fingerprint-cons dev devs) ∙ e ∙ (unfold fingerprint in refl)))
fingerprint_inj (dev ∷ devs) (dev' ∷ devs') h k e =
    let (uuid, more) =
      split_first equals _ _ dev.uuid dev'.uuid (h dev (Memᴰ.head refl)) (k dev' (Memᴰ.head refl))
        (sym (fingerprint-cons dev devs) ∙ e ∙ fingerprint-cons dev' devs') in
    let (health, rest) = after_inj dev.health dev'.health _ _ more in
    let tail =
      fingerprint_inj devs devs' (λ x m. h x (Memᴰ.tail m)) (λ x m. k x (Memᴰ.tail m)) rest in
    ground (arith, tail)

same_shown :
    (devs devs' : List Device)
    → map shown devs ≡ map shown devs'
    → fingerprint devs ≡ fingerprint devs'
unfolding fingerprint
same_shown [] [] e = refl
same_shown [] (dev ∷ devs) e = absurd (ground arith)
same_shown (dev ∷ devs) [] e = absurd (ground arith)
same_shown (dev ∷ devs) (dev' ∷ devs') e =
    let uuid : dev.uuid ≡ dev'.uuid = ground arith in
    let health : dev.health ≡ dev'.health = ground arith in
    let rest : map shown devs ≡ map shown devs' = ground arith in
    rw (uuid, health, same_shown devs devs' rest)

-- As long as no uuid contains '=', two sets of devices have the same fingerprint exactly when they agree,
-- device by device, in uuid and health: a change of either is never missed.
pub fingerprint_iff :
    (devs devs' : List Device)
    → AllPlain devs
    → AllPlain devs'
    → (fingerprint devs ≡ fingerprint devs') ↔ (map shown devs ≡ map shown devs')
fingerprint_iff devs devs' h k = (fingerprint_inj devs devs' h k, same_shown devs devs')
