-- ===== src/Supervisor/Exit.antt =====
-- When the supervisor ends, and with which code (native/javex_nif/src/worker.rs, `supervise`).
use javex.Base.{
  ℕ, ◌≤◌, ◌<◌, ◌≡◌, ◌⊎◌, inl, inr, refl, sym, ap, ◌∙◌, true, false, none, some, Option-cases, List,
  [], ◌∷◌, ◌++◌, Anyhow, Result, ok, arith, All, Result-cases, Bool-cases, subst,
}
use javex.Ipc.{max_request}
use javex.Budgets.Bounds.{request_range, completion_range}
use javex.Supervisor.{
  Request, plan, ExitStatus, exited, signalled, exit_code, Observation, poll_once, poll, final_code,
}

-- Some observation of a list satisfies a predicate.
abbrev pub Any : (Observation → Type 0) → List Observation → Type 0
Any P [] = ⊥
Any P (o ∷ os) = P o ⊎ Any P os

in_time : (deadline : ℕ) (o : Observation) → poll_once deadline o ≡ none → ¬ (deadline ≤ o.now)
unfolding poll_once
in_time deadline o waiting late = ground arith

-- The waiting loop ends as soon as it sees the deadline pass, whatever the child does.
pub poll_ends :
    (deadline : ℕ) (os : List Observation)
    → Any (λ o. deadline ≤ o.now) os
    → (code : ℕ) × (poll deadline os ≡ some code)
unfolding poll
poll_ends deadline [] late = elim late [ ]
poll_ends deadline (o ∷ os) late = elim (Option-cases (poll_once deadline o)) [
  | inr (code, decided) ↦ (code, rw (decided, poll))
  | inl waiting ↦
      rw (waiting, poll) (poll_ends deadline os (later late (in_time deadline o waiting)))
]
  where
    later : {A B : Type 0} → A ⊎ B → ¬ A → B
    later (inl a) n = absurd (n a)
    later (inr b) n = b

-- What an observation must show for a code, in the order in which the loop looks.
pub data Shows (deadline code : ℕ) (o : Observation) : Type 0 where
  ended :
      (status : ExitStatus)
      → o.status ≡ some status
      → code ≡ exit_code status
      → Shows deadline code o
  cancelled : o.status ≡ none → o.cancelled ≡ true → code ≡ 125 → Shows deadline code o
  overflowed :
      o.status ≡ none → o.cancelled ≡ false → o.overflow ≡ true → code ≡ 126 → Shows deadline code o
  timed_out :
      o.status ≡ none
      → o.cancelled ≡ false
      → o.overflow ≡ false
      → deadline ≤ o.now
      → code ≡ 124
      → Shows deadline code o

once-Shows :
    (deadline code : ℕ) (o : Observation) → poll_once deadline o ≡ some code → Shows deadline code o
unfolding poll_once
once-Shows deadline code o done = elim (Option-cases o.status) [
  | inr (status, e) ↦ ended status e (ground arith)
  | inl running ↦ elim (Bool-cases o.cancelled) [
    | inl c ↦ cancelled running c (ground arith)
    | inr c ↦ elim (Bool-cases o.overflow) [
      | inl f ↦ overflowed running c f (ground arith)
      | inr f ↦ timed_out running c f (ground arith) (ground arith)
    ]
  ]
]

still :
    (deadline : ℕ) (o : Observation)
    → poll_once deadline o ≡ none
    → (o.status ≡ none) × (o.cancelled ≡ false) × (o.overflow ≡ false) × (o.now < deadline)
unfolding poll_once
still deadline o waiting = ground arith

-- The loop leaves with the code of the first observation that decides: a child that ended by itself
-- comes before a cancellation, that before an overflow, and that before the deadline. All that it saw
-- before showed a running child, no flag, and time left.
pub poll-Shows :
    (deadline code : ℕ) (os : List Observation)
    → poll deadline os ≡ some code
    → (before : List Observation) × (o : Observation) × (after : List Observation) × (os
        ≡ before ++ o ∷ after)
      × All
          (λ p.
            (p.status ≡ none) × (p.cancelled ≡ false) × (p.overflow ≡ false) × (p.now < deadline))
          before
      × Shows deadline code o
unfolding poll
poll-Shows deadline code [] done = cc
poll-Shows deadline code (o ∷ os) done = elim (Option-cases (poll_once deadline o)) [
  | inr (c, decided) ↦ (
    [],
    o,
    os,
    refl,
    tt,
    subst (λ x. Shows deadline x o) (same (rw (decided, poll) at done))
        (once-Shows deadline c o decided),
  )
  | inl waiting ↦
      let (before, p, after, split, quiet, shows) =
        poll-Shows deadline code os (rw (waiting, poll) at done) in
      (o ∷ before, p, after, ap (◌∷◌ o) split, (still deadline o waiting, quiet), shows)
]
  where
    same : {c code : ℕ} → some c ≡ some code → c ≡ code
    same e = cc

zero-Shows :
    (deadline code : ℕ) (o : Observation)
    → Shows deadline code o
    → code ≡ 0
    → o.status ≡ some (exited 0)
zero-Shows deadline code o (ended (exited c) e same) zero_code =
    e ∙ ap (λ n. some (exited n)) (sym same ∙ zero_code)
zero-Shows deadline code o (ended (signalled s) e same) zero_code = absurd (omega arith)
zero-Shows deadline code o (cancelled e c same) zero_code = absurd (omega arith)
zero-Shows deadline code o (overflowed e c f same) zero_code = absurd (omega arith)
zero-Shows deadline code o (timed_out e c f late same) zero_code = absurd (omega arith)

Any-append :
    (P : Observation → Type 0) (before : List Observation) (o : Observation)
    (after : List Observation)
    → P o
    → Any P (before ++ o ∷ after)
Any-append P [] o after h = inl h
Any-append P (x ∷ before) o after h = inr (Any-append P before o after h)

-- The supervisor exits with success only if the child ended by itself with code 0 and the reader
-- thread passed a conversation on without an error.
pub final_zero :
    (deadline code : ℕ) (os : List Observation) (reader : Result Anyhow (Unit {0}))
    → poll deadline os ≡ some code
    → final_code code reader ≡ 0
    → Any (λ o. o.status ≡ some (exited 0)) os × (reader ≡ ok tt)
unfolding final_code
final_zero deadline code os reader done zero_code =
    let (before, o, after, split, quiet, shows) = poll-Shows deadline code os done in
    let P : Observation → Type 0 = λ o. o.status ≡ some (exited 0) in
    elim (Result-cases reader) [
      | inl (u, fine) ↦ (
        subst (Any P) (sym split)
            (Any-append P before o after (zero-Shows deadline code o shows (ground arith))),
        fine,
      )
      | inr (e, failed) ↦ ground arith
    ]

-- Every limit of the supervisor's threads lies within 64 MiB, and those of callbacks, completions and
-- diagnostics leave room for at least 4096 bytes.
pub plan-bounds :
    (r : Request)
    → (plan r).maxima.result_maximum ≤ max_request
      × ((4096 ≤ (plan r).maxima.callback_maximum)
          × ((plan r).maxima.callback_maximum ≤ max_request))
      × ((4096 ≤ (plan r).completion_maximum) × ((plan r).completion_maximum ≤ max_request))
      × ((4096 ≤ (plan r).maxima.diagnostic_maximum)
          × ((plan r).maxima.diagnostic_maximum ≤ max_request))
unfolding plan
plan-bounds r =
    (omega arith, request_range r.limits, completion_range r.limits, (omega arith, omega arith))
