-- ===== src/Server/Lifecycle/Dialing.antt =====
-- internal/server/register.go, dial: the wait for a gRPC connection.
use Prim.Native.String.{◌++◌}
use ascend_device_plugin.Base.{
  ℕ, zero, suc, ◌+◌, ◌≤◌, ◌<◌, String, Bool, true, false, ◌≡◌, ◌≢◌, refl, sym, ap, ◌∙◌, ◌⊎◌, inl,
  inr, Option, none, some, Result, ok, err, Error, message, wrap, Bool-cases, Result-cases, eqb,
  subst, arith,
}

-- connectivity.State.
pub data Connectivity : Type 0 where
  idle connecting ready transient_failure shutdown : Connectivity

-- A connection: grpc.NewClient, GetState in each round, whether WaitForStateChange then saw another state
-- before the deadline, and a state's text.
pub record Connection : Type 0 where
  pub new_client : Result (Unit {0})
  pub state : ℕ → Connectivity
  pub changes : ℕ → Bool
  pub state_text : Connectivity → String

-- The connection that is returned, or an error, with which it has been closed.
pub data Dialed : Type 0 where
  connected : Dialed
  closed_with : Error → Dialed

module _ (c : Connection) (path : String) where
  abbrev pub failure : Connectivity → Error
  failure state =
      message ("connection to " ++ path ++ " failed (state: " ++ c.state_text state ++ ")")

  abbrev pub timeout : Error
  timeout = message ("timed out waiting for connection to " ++ path)

  -- The loop from round `n` on, with the rounds of fuel that are left.
  unfoldable pub wait_ready : ℕ → ℕ → Option Dialed
  wait_ready zero n = none
  wait_ready (suc fuel) n = elim (c.state n) [
    | ready ↦ some connected
    | transient_failure ↦ some (closed_with (failure transient_failure))
    | shutdown ↦ some (closed_with (failure shutdown))
    | idle ↦ elim (c.changes n) [
      | true ↦ wait_ready fuel (suc n)
      | false ↦ some (closed_with timeout)
    ]
    | connecting ↦ elim (c.changes n) [
      | true ↦ wait_ready fuel (suc n)
      | false ↦ some (closed_with timeout)
    ]
  ]

  unfoldable pub dial : ℕ → Option (Result Dialed)
  unfolding wait_ready
  dial fuel = elim c.new_client [
    | err e ↦ some (err (wrap ("grpc.NewClient(passthrough:///" ++ path ++ ")") e))
    | ok t ↦ elim (wait_ready fuel 0) [ none ↦ none | some d ↦ some (ok d) ]
  ]

  -- In this round the loop goes on.
  abbrev pub IsWaiting : ℕ → Type 0
  IsWaiting n = ((c.state n ≡ idle) ⊎ (c.state n ≡ connecting)) × (c.changes n ≡ true)

  -- From round `from` on, the loop goes on until a round in which the connection is ready.
  abbrev pub GetsReady : ℕ → Type 0
  GetsReady from = (n : ℕ) × (c.state (from + n) ≡ ready) × ((m : ℕ) → m < n → IsWaiting (from + m))

  abbrev pub IsOver : ℕ → Option Dialed → Type 0
  IsOver from done =
      ((done ≡ some connected) × GetsReady from)
      ⊎ ((e : Error) × (done ≡ some (closed_with e)) × ¬ GetsReady from)

  Connectivity-cases :
      (s : Connectivity)
      → (s ≡ ready) ⊎ (s ≡ transient_failure) ⊎ (s ≡ shutdown) ⊎ (s ≡ idle) ⊎ (s ≡ connecting)
  Connectivity-cases ready = inl refl
  Connectivity-cases transient_failure = inr (inl refl)
  Connectivity-cases shutdown = inr (inr (inl refl))
  Connectivity-cases idle = inr (inr (inr (inl refl)))
  Connectivity-cases connecting = inr (inr (inr (inr refl)))

  -- Neither ready nor waiting in this round: never ready.
  never_ready : (from : ℕ) → c.state from ≢ ready → ¬ IsWaiting from → ¬ GetsReady from
  never_ready from now stuck (zero, at, before) = now (ap c.state (omega arith) ∙ at)
  never_ready from now stuck (suc n, at, before) =
      stuck (subst IsWaiting (omega arith) (before 0 (omega arith)))

  later : (from : ℕ) → IsWaiting from → GetsReady (suc from) → GetsReady from
  later from now (n, at, before) = (suc n, ap c.state (omega arith) ∙ at, all)
    where
      all : (m : ℕ) → m < suc n → IsWaiting (from + m)
      all zero h = subst IsWaiting (omega arith) now
      all (suc m) h = subst IsWaiting (omega arith) (before m (omega arith))

  sooner : (from : ℕ) → c.state from ≢ ready → GetsReady from → GetsReady (suc from)
  sooner from now (zero, at, before) = absurd (now (ap c.state (omega arith) ∙ at))
  sooner from now (suc n, at, before) = (
    n,
    ap c.state (omega arith) ∙ at,
    λ m h. subst IsWaiting (omega arith) (before (suc m) (omega arith)),
  )

  waits_on :
      (fuel from : ℕ)
      → ((c.state from ≡ idle) ⊎ (c.state from ≡ connecting))
      → wait_ready (suc fuel) from ≡ elim (c.changes from) [
        | true ↦ wait_ready fuel (suc from)
        | false ↦ some (closed_with timeout)
      ]
  unfolding wait_ready
  waits_on fuel from (inl s) = rw (s, wait_ready) refl
  waits_on fuel from (inr s) = rw (s, wait_ready) refl

  not_ready :
      (from : ℕ) → ((c.state from ≡ idle) ⊎ (c.state from ≡ connecting)) → c.state from ≢ ready
  not_ready from (inl s) r = ground arith
  not_ready from (inr s) r = ground arith

  wait_ready-IsOver :
      (fuel from deadline : ℕ)
      → c.changes deadline ≡ false
      → from ≤ deadline
      → deadline < from + fuel
      → IsOver from (wait_ready fuel from)
  unfolding wait_ready
  wait_ready-IsOver zero from deadline last reached enough = absurd (omega arith)
  wait_ready-IsOver (suc fuel) from deadline last reached enough =
      elim (Connectivity-cases (c.state from)) [
        | inl r ↦ inl (
          rw (r, wait_ready) refl,
          (0, ap c.state (omega arith) ∙ r, λ m h. absurd (omega arith)),
        )
        | inr (inl f) ↦ inr (
          failure transient_failure,
          rw (f, wait_ready) refl,
          never_ready from (λ r. ground arith)
              λ (w, _). elim w [ inl i ↦ ground arith | inr i ↦ ground arith ],
        )
        | inr (inr (inl f)) ↦ inr (
          failure shutdown,
          rw (f, wait_ready) refl,
          never_ready from (λ r. ground arith)
              λ (w, _). elim w [ inl i ↦ ground arith | inr i ↦ ground arith ],
        )
        | inr (inr (inr waiting)) ↦ elim (Bool-cases (c.changes from)) [
          | inr still ↦ inr (
            timeout,
            waits_on fuel from waiting ∙ rw still refl,
            never_ready from (not_ready from waiting) λ (_, moves). ground arith,
          )
          | inl moves ↦
              let goes : wait_ready (suc fuel) from ≡ wait_ready fuel (suc from) =
                waits_on fuel from waiting ∙ rw moves refl in
              elim (wait_ready-IsOver fuel (suc from) deadline last
                (ahead from deadline last reached moves) (omega arith)) [
                  | inl (done, gets) ↦ inl (goes ∙ done, later from (waiting, moves) gets)
                  | inr (e, done, never) ↦
                      inr
                        (e, goes ∙ done, λ gets. never (sooner from (not_ready from waiting) gets))
                ]
        ]
      ]
    where
      ahead :
          (from deadline : ℕ)
          → c.changes deadline ≡ false
          → from ≤ deadline
          → c.changes from ≡ true
          → suc from ≤ deadline
      ahead from deadline last reached moves = elim (Bool-cases (eqb from deadline)) [
        | inl same ↦
            let at : from ≡ deadline = ground arith in
            let never : true ≡ false = sym moves ∙ ap c.changes at ∙ last in absurd (ground arith)
        | inr apart ↦ ground arith
      ]

  -- Where the deadline is met in some round, at the latest, one round more of fuel is enough for dial to
  -- end: with the error of grpc.NewClient; with the connection, if the wait goes on until a round in which
  -- it is ready; or with an error with which the connection has been closed, if it does not.
  pub dial-IsOver :
      (fuel deadline : ℕ)
      → c.changes deadline ≡ false
      → deadline < fuel
      → ((e : Error) × (c.new_client ≡ err e) × (f : Error) × (dial fuel ≡ some (err f)))
        ⊎ ((dial fuel ≡ some (ok connected)) × GetsReady 0)
        ⊎ ((e : Error) × (dial fuel ≡ some (ok (closed_with e))) × ¬ GetsReady 0)
  unfolding dial
  dial-IsOver fuel deadline last enough = elim (Result-cases c.new_client) [
    | inr (e, p) ↦
        inl (e, p, wrap ("grpc.NewClient(passthrough:///" ++ path ++ ")") e, simp (dial, p))
    | inl (t, p) ↦ elim (wait_ready-IsOver fuel 0 deadline last (omega arith) (omega arith)) [
      | inl (done, gets) ↦ inr (inl (simp (dial, p, done), gets))
      | inr (e, done, never) ↦ inr (inr (e, simp (dial, p, done), never))
    ]
  ]
