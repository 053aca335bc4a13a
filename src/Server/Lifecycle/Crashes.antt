-- ===== src/Server/Lifecycle/Crashes.antt =====
-- internal/server/server.go, serve: the goroutine that serves again after a crash, until there are too many.
use ascend_device_plugin.Base.{
  ℕ, suc, ◌+◌, ◌≤◌, true, ◌≡◌, ◌↔◌, refl, ap, ◌∙◌, ◌⊎◌, inl, inr, List, [], ◌∷◌, ◌++◌, map, length,
  ltb, if◌then◌else◌, arith, Bool-cases,
}

-- A round of the loop: the stop channel is closed, Serve returns without an error, or it crashes so many
-- nanoseconds after the last crash.
pub data Round : Type 0 where
  stop_seen finished : Round
  crashed : ℕ → Round

-- After these rounds the loop is left, the process has quit by klog.Fatalf, or the server runs.
pub data Serving : Type 0 where
  left fatal running : Serving

-- 3600 seconds.
abbrev pub hour : ℕ
hour = 3600000000000

abbrev pub restart_count_after : ℕ → ℕ → ℕ
restart_count_after gap restart_count = if ltb hour gap then 1 else suc restart_count

unfoldable pub serve_loop : ℕ → List Round → Serving
serve_loop restart_count [] = running
serve_loop restart_count (stop_seen ∷ rounds) = left
serve_loop restart_count (finished ∷ rounds) = left
serve_loop restart_count (crashed gap ∷ rounds) =
    let rest = serve_loop (restart_count_after gap restart_count) rounds in
    if ltb 5 restart_count then fatal else rest

abbrev pub AreQuick : List ℕ → Type 0
AreQuick [] = Unit {0}
AreQuick (gap ∷ gaps) = (gap ≤ hour) × AreQuick gaps

-- A first crash, five more that each came within an hour, and one more at any time.
abbrev pub IsSevenfold : List Round → Type 0
IsSevenfold rounds =
    (before : List ℕ) × (first : ℕ) × (quick : List ℕ) × (last : ℕ) × (rest : List Round) × (rounds
      ≡ map crashed before ++ (crashed first ∷ (map crashed quick ++ (crashed last ∷ rest))))
    × (length quick ≡ 5)
    × AreQuick quick

-- The crashes that are still missing for a count of 6, within an hour each, and one more.
abbrev Reaches : ℕ → List Round → Type 0
Reaches n rounds =
    (quick : List ℕ) × (last : ℕ) × (rest : List Round) × (rounds
      ≡ map crashed quick ++ (crashed last ∷ rest))
    × (n + length quick ≡ 6)
    × AreQuick quick

fatal-cases :
    (n : ℕ) (rounds : List Round)
    → n ≤ 6
    → serve_loop n rounds ≡ fatal
    → IsSevenfold rounds ⊎ Reaches n rounds
unfolding serve_loop
fatal-cases n [] bound h = cc
fatal-cases n (stop_seen ∷ rounds) bound h = cc
fatal-cases n (finished ∷ rounds) bound h = cc
fatal-cases n (crashed gap ∷ rounds) bound h = elim (Bool-cases (ltb 5 n)) [
  | inl many ↦ inr ([], gap, rounds, refl, ground arith, tt)
  | inr few ↦ elim (Bool-cases (ltb hour gap)) [
    | inl slow ↦ elim (fatal-cases 1 rounds (omega arith) (ground arith)) [
      | inl (before, first, quick, last, rest, e, five, all) ↦
          inl (gap ∷ before, first, quick, last, rest, ap (λ l. crashed gap ∷ l) e, five, all)
      | inr (quick, last, rest, e, more, all) ↦
          inl ([], gap, quick, last, rest, ap (λ l. crashed gap ∷ l) e, omega arith, all)
    ]
    | inr fast ↦ elim (fatal-cases (suc n) rounds (ground arith) (ground arith)) [
      | inl (before, first, quick, last, rest, e, five, all) ↦
          inl (gap ∷ before, first, quick, last, rest, ap (λ l. crashed gap ∷ l) e, five, all)
      | inr (quick, last, rest, e, more, all) ↦
          inr
            (gap ∷ quick, last, rest, ap (λ l. crashed gap ∷ l) e, omega arith, (ground arith, all))
    ]
  ]
]

-- Whatever the crashes are, the loop gets past them or has quit.
past :
    (n : ℕ) (gaps : List ℕ) (rounds : List Round)
    → (serve_loop n (map crashed gaps ++ rounds) ≡ fatal)
      ⊎ ((m : ℕ) × (serve_loop n (map crashed gaps ++ rounds) ≡ serve_loop m rounds))
unfolding serve_loop
past n [] rounds = inr (n, refl)
past n (gap ∷ gaps) rounds = elim (Bool-cases (ltb 5 n)) [
  | inl many ↦ inl (ground arith)
  | inr few ↦ elim (past (restart_count_after gap n) gaps rounds) [
    | inl quits ↦ inl (ground arith)
    | inr (m, e) ↦ inr (m, ground arith)
  ]
]

past_quick :
    (n : ℕ) (quick : List ℕ) (rounds : List Round)
    → AreQuick quick
    → (serve_loop n (map crashed quick ++ rounds) ≡ fatal)
      ⊎ (serve_loop n (map crashed quick ++ rounds) ≡ serve_loop (n + length quick) rounds)
unfolding serve_loop
past_quick n [] rounds all = inr (ap (λ k. serve_loop k rounds) (omega arith))
past_quick n (gap ∷ quick) rounds (now, all) = elim (Bool-cases (ltb 5 n)) [
  | inl many ↦ inl (ground arith)
  | inr few ↦
      let count : restart_count_after gap n ≡ suc n = ground arith in
      let step : serve_loop n (map crashed (gap ∷ quick) ++ rounds)
          ≡ serve_loop (suc n) (map crashed quick ++ rounds) =
        rw few (ap (λ k. serve_loop k (map crashed quick ++ rounds)) count) in
      elim (past_quick (suc n) quick rounds all) [
        | inl quits ↦ inl (step ∙ quits)
        | inr e ↦ inr (step ∙ e ∙ ap (λ k. serve_loop k rounds) (omega arith))
      ]
]

sixth : (n last : ℕ) (rest : List Round) → 6 ≤ n → serve_loop n (crashed last ∷ rest) ≡ fatal
unfolding serve_loop
sixth n last rest h = let many : ltb 5 n ≡ true = ground arith in rw many refl

quits_at_last :
    (n first : ℕ) (quick : List ℕ) (last : ℕ) (rest : List Round)
    → length quick ≡ 5
    → AreQuick quick
    → serve_loop n (crashed first ∷ (map crashed quick ++ (crashed last ∷ rest))) ≡ fatal
unfolding serve_loop
quits_at_last n first quick last rest five all = elim (Bool-cases (ltb 5 n)) [
  | inl many ↦ ground arith
  | inr few ↦
      let count = restart_count_after first n in
      let positive : 1 ≤ count = ground arith in
      let later : serve_loop count (map crashed quick ++ (crashed last ∷ rest)) ≡ fatal =
        elim (past_quick count quick (crashed last ∷ rest) all) [
          | inl quits ↦ quits
          | inr e ↦ e ∙ sixth (count + length quick) last rest (omega arith)
        ] in
      rw few later
]

-- The process quits exactly when there are seven crashes in a row, with no stop between, of which the
-- second to the sixth each came within an hour of the one before: the time of the seventh does not count.
pub serve_loop-fatal_iff :
    (rounds : List Round) → (serve_loop 0 rounds ≡ fatal) ↔ IsSevenfold rounds
serve_loop-fatal_iff rounds = (quits, sevenfold)
  where
    quits : serve_loop 0 rounds ≡ fatal → IsSevenfold rounds
    quits h = elim (fatal-cases 0 rounds (omega arith) h) [
      | inl seven ↦ seven
      | inr (first ∷ quick, last, rest, e, six, all) ↦
          ([], first, quick, last, rest, e, omega arith, all.1)
      | inr ([], last, rest, e, six, all) ↦ absurd (omega arith)
    ]

    sevenfold : IsSevenfold rounds → serve_loop 0 rounds ≡ fatal
    sevenfold (before, first, quick, last, rest, e, five, all) =
        ap (serve_loop 0) e
        ∙ elim (past 0 before (crashed first ∷ (map crashed quick ++ (crashed last ∷ rest)))) [
          | inl quits_before ↦ quits_before
          | inr (m, same) ↦ same ∙ quits_at_last m first quick last rest five all
        ]
