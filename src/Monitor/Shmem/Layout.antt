-- ===== src/Monitor/Shmem/Layout.antt =====
-- internal/monitor/registry.go: the offsets against the layout that the limiter writes.
use mathlib.Core.List.{append_assoc}
use ascend_device_plugin.Base.{
  ℕ, zero, suc, ◌+◌, ◌*◌, ◌/◌, ◌%◌, ◌^◌, ◌≤◌, ◌<◌, true, false, ◌≡◌, refl, sym, ap, ◌∙◌, inl, inr,
  List, [], ◌∷◌, ◌++◌, some, returns, length, drop, drop-append, length-append, ltb, eqb,
  if◌then◌else◌, arith, Bool-cases,
}
use ascend_device_plugin.Config.{Bytes}
use ascend_device_plugin.Monitor.Shmem.{word, load, add_slot, read_slot, read_slots}
use ascend_device_plugin.Monitor.Shmem.Bounds.{AllBelow}

-- The number in `n` bytes, the low one first.
abbrev pub le_bytes : ℕ → ℕ → Bytes
le_bytes zero v = []
le_bytes (suc n) v = (v % 256) ∷ le_bytes n (v / 256)

abbrev pub Fits : ℕ → ℕ → Type 0
Fits zero v = v ≡ 0
Fits (suc n) v = Fits n (v / 256)

pub length-le_bytes : (n v : ℕ) → length (le_bytes n v) ≡ n
length-le_bytes zero v = refl
length-le_bytes (suc n) v = ap suc (length-le_bytes n (v / 256))

pub word-le_bytes : (n v : ℕ) (rest : Bytes) → Fits n v → word n (le_bytes n v ++ rest) ≡ some v
unfolding word
word-le_bytes zero v rest h = ap some (sym h)
word-le_bytes (suc n) v rest h = rw (word-le_bytes n (v / 256) rest h) (ap some (omega arith))

-- A number behind the bytes `pre` is read at their length.
pub load-le_bytes :
    (n v offset : ℕ) (pre rest bytes : Bytes)
    → Fits n v
    → length pre ≡ offset
    → bytes ≡ pre ++ (le_bytes n v ++ rest)
    → load n bytes offset ≡ returns v
unfolding load
load-le_bytes n v offset pre rest bytes h len e =
    let tail = le_bytes n v ++ rest in
    let at : drop offset bytes ≡ tail =
      rw e (ap (λ k. drop k (pre ++ tail)) (omega arith) ∙ drop-append pre tail 0) in
    rw (at, load) (rw (word-le_bytes n v rest h) refl)

pub record Slot : Type 0 where
  pub pid_bytes : Bytes
  pub hbm_used : List ℕ
  pub is_active : ℕ
  pub padding : Bytes

abbrev pub IsSlot : Slot → Type 0
IsSlot s =
    (length s.pid_bytes ≡ 8)
    × (length s.hbm_used ≡ 8)
    × AllBelow (2 ^ 64) s.hbm_used
    × (s.is_active < 2 ^ 32)
    × (length s.padding ≡ 4)

abbrev pub words : List ℕ → Bytes
words [] = []
words (v ∷ vs) = le_bytes 8 v ++ words vs

abbrev pub slot_bytes : Slot → Bytes
slot_bytes s = s.pid_bytes ++ (words s.hbm_used ++ (le_bytes 4 s.is_active ++ s.padding))

abbrev pub all_slot_bytes : List Slot → Bytes
all_slot_bytes [] = []
all_slot_bytes (s ∷ slots) = slot_bytes s ++ all_slot_bytes slots

abbrev pub add_words : List ℕ → List ℕ → List ℕ
add_words [] vs = []
add_words (sum ∷ sums) [] = sum ∷ sums
add_words (sum ∷ sums) (v ∷ vs) = (sum + v) % 2 ^ 64 ∷ add_words sums vs

abbrev pub account : Slot → List ℕ → List ℕ
account s sums = if eqb s.is_active 0 then sums else add_words sums s.hbm_used

pub fits8 : (v : ℕ) → v < 2 ^ 64 → Fits 8 v
fits8 v h = omega arith

pub fits4 : (v : ℕ) → v < 2 ^ 32 → Fits 4 v
fits4 v h = omega arith

length-words : (vs : List ℕ) → length (words vs) ≡ length vs * 8
length-words [] = omega arith
length-words (v ∷ vs) =
    omega (arith, length-append (le_bytes 8 v) (words vs), length-le_bytes 8 v, length-words vs)

add_slot-words :
    (bytes pre rest : Bytes) (base d : ℕ) (sums vs : List ℕ)
    → length sums ≡ length vs
    → AllBelow (2 ^ 64) vs
    → length pre ≡ base + 8 + d * 8
    → bytes ≡ pre ++ (words vs ++ rest)
    → add_slot bytes base d sums ≡ returns (add_words sums vs)
unfolding add_slot
add_slot-words bytes pre rest base d [] vs same below len e = refl
add_slot-words bytes pre rest base d (sum ∷ sums) [] same below len e = absurd (omega arith)
add_slot-words bytes pre rest base d (sum ∷ sums) (v ∷ vs) same below len e =
    let used : load 8 bytes (base + 8 + d * 8) ≡ returns v =
      load-le_bytes 8 v (base + 8 + d * 8) pre (words vs ++ rest) bytes (fits8 v below.0) len e in
    let more =
      add_slot-words bytes (pre ++ le_bytes 8 v) rest base (suc d) sums vs (omega arith) below.1
        (length-append pre (le_bytes 8 v) ∙ omega arith)
        (e ∙ sym (append_assoc pre (le_bytes 8 v) (words vs ++ rest))) in
    rw (used, add_slot) (rw more refl)

read_slot-account :
    (bytes pre rest : Bytes) (base : ℕ) (sums : List ℕ) (s : Slot)
    → IsSlot s
    → length sums ≡ 8
    → length pre ≡ base
    → bytes ≡ pre ++ (slot_bytes s ++ rest)
    → read_slot bytes base sums ≡ returns (account s sums)
unfolding read_slot
read_slot-account bytes pre rest base sums s (pid, hbm, below, active, pad) len at e =
    let front = pre ++ s.pid_bytes in
    let used = words s.hbm_used in
    let e₁ : bytes ≡ front ++ (used ++ (le_bytes 4 s.is_active ++ (s.padding ++ rest))) =
      e ∙ simp append_assoc in
    let e₂ : bytes ≡ (front ++ used) ++ (le_bytes 4 s.is_active ++ (s.padding ++ rest)) =
      e₁ ∙ sym (append_assoc front used _) in
    let len_front : length front ≡ base + 8 = length-append pre s.pid_bytes ∙ omega arith in
    let len_both : length (front ++ used) ≡ base + 72 =
      length-append front used ∙ omega (arith, length-words s.hbm_used) in
    let loaded : load 4 bytes (base + 72) ≡ returns s.is_active =
      load-le_bytes 4 s.is_active (base + 72) (front ++ used) (s.padding ++ rest) bytes
        (fits4 s.is_active active) len_both e₂ in
    elim (Bool-cases (eqb s.is_active 0)) [
      | inl free ↦ rw (loaded, read_slot) (rw free refl)
      | inr busy ↦
          rw (loaded, read_slot)
            (rw busy (
              add_slot-words bytes front _ base 0 sums s.hbm_used (omega arith) below (omega arith)
                e₁))
    ]

-- What is accounted for the slots, one after the other.
abbrev pub account_all : List Slot → List ℕ → List ℕ
account_all [] sums = sums
account_all (s ∷ slots) sums = account_all slots (account s sums)

abbrev pub AllSlots : List Slot → Type 0
AllSlots [] = Unit {0}
AllSlots (s ∷ slots) = IsSlot s × AllSlots slots

length-add_words : (sums vs : List ℕ) → length (add_words sums vs) ≡ length sums
length-add_words [] vs = refl
length-add_words (sum ∷ sums) [] = refl
length-add_words (sum ∷ sums) (v ∷ vs) = ap suc (length-add_words sums vs)

length-account : (s : Slot) (sums : List ℕ) → length (account s sums) ≡ length sums
length-account s sums = elim (Bool-cases (eqb s.is_active 0)) [
  | inl free ↦ rw free refl
  | inr busy ↦ rw busy (length-add_words sums s.hbm_used)
]

length-slot_bytes : (s : Slot) → IsSlot s → length (slot_bytes s) ≡ 80
length-slot_bytes s (pid, hbm, below, active, pad) = omega (
  arith,
  length-append s.pid_bytes (words s.hbm_used ++ (le_bytes 4 s.is_active ++ s.padding)),
  length-append (words s.hbm_used) (le_bytes 4 s.is_active ++ s.padding),
  length-words s.hbm_used,
)

pub read_slots-account_all :
    (bytes pre : Bytes) (rounds i : ℕ) (sums : List ℕ) (slots : List Slot)
    → AllSlots slots
    → length slots ≤ rounds
    → length sums ≡ 8
    → length pre ≡ 1080 + i * 80
    → bytes ≡ pre ++ all_slot_bytes slots
    → read_slots bytes rounds i sums ≡ returns (account_all slots sums)
unfolding read_slots
read_slots-account_all bytes pre zero i sums [] all few len at e = refl
read_slots-account_all bytes pre zero i sums (s ∷ slots) all few len at e = absurd (omega arith)
read_slots-account_all bytes pre (suc rounds) i sums [] all few len at e =
    let short : ltb (length bytes) (1080 + i * 80 + 80) ≡ true =
      ground (arith, ap length e, length-append {0} pre []) in
    rw (short, read_slots) refl
read_slots-account_all bytes pre (suc rounds) i sums (s ∷ slots) (slot, all) few len at e =
    let long : ltb (length bytes) (1080 + i * 80 + 80) ≡ false = ground (
      arith,
      ap length e,
      length-append {0} pre (slot_bytes s ++ all_slot_bytes slots),
      length-append {0} (slot_bytes s) (all_slot_bytes slots),
      length-slot_bytes s slot,
    ) in
    let now =
      read_slot-account bytes pre (all_slot_bytes slots) (1080 + i * 80) sums s slot len at e in
    let later =
      read_slots-account_all bytes (pre ++ slot_bytes s) rounds (suc i) (account s sums) slots all
        (omega arith) (length-account s sums ∙ len)
        (length-append pre (slot_bytes s) ∙ omega (arith, length-slot_bytes s slot))
        (e ∙ sym (append_assoc pre (slot_bytes s) (all_slot_bytes slots))) in
    rw (long, read_slots) (rw now later)
