-- ===== src/Execution/Start/Limits.antt =====
-- What `Execution::start` of native/javex_nif/src/sandbox.rs returns: an execution with the limits of its
-- budget, or a failure of a known kind.
use javex.Base.{
  ℕ, ◌≤◌, ◌≡◌, refl, true, Option, none, inl, inr, List, Anyhow, Failure, length, ltb, Result, ok,
  err, arith, Bool-cases, Result-cases,
}
use javex.Control.{Control}
use javex.Cache.{Panic}
use javex.Budgets.{Budgets, callback_request_limit, callback_completion_limit}
use javex.Relay.{any_eq, failure_kinds}
use javex.Sandbox.{World, Text, Sandbox, finish}
use javex.Sandbox.Finish.{finish-known}
use javex.Sandbox.Create.{Builders, Store, new}
use javex.Sandbox.Create.Fresh.{new-IsFresh}
use javex.Execution.{Provider, Bridge, Execution}
use javex.Execution.Load.{Loader}
use javex.Execution.Start.{
  Host, Linking, find_bridge, enter, leave, with_store, Here, execute, attach, assemble, begin,
  start,
}

module _ (builders : Builders) {K M : Type 0} (loader : Loader builders.Guest builders.Limits K M)
    {p : Provider (World builders.Guest builders.Limits K M)}
    (linking : Linking (World builders.Guest builders.Limits K M) M p) (text : Text)
    (wasm input : List ℕ) (opts : Budgets) (control : Control) where
  -- An execution that was started belongs to the control of the call, writes to streams with the quotas
  -- of the budget, and exchanges frames within the limits of the budget.
  pub record IsBudgeted (e : Execution p) : Type 0 where
    pub same_control : e.sandbox.control ≡ control
    pub stdout_capacity : e.sandbox.stdout.capacity ≡ opts.max_output
    pub stderr_capacity : e.sandbox.stderr.capacity ≡ opts.max_stderr
    pub step_limit : e.max_step ≡ callback_request_limit opts
    pub completion_limit : e.max_completion ≡ callback_completion_limit opts
    pub diagnostic_limit : e.max_diagnostic ≡ opts.max_stderr

  -- A failure has a kind that the supervisor knows, and an execution keeps to the budget.
  abbrev pub IsGood : Result Failure (Execution p) → Type 0
  IsGood (err (kind, reason)) = any_eq kind failure_kinds ≡ true
  IsGood (ok e) = IsBudgeted e

  -- What `start` may return: of the executions, only those whose input and module keep to the budget.
  abbrev pub Starts :
      Result Panic (Host K M × Result Failure (Execution p × Store builders.Guest builders.Limits))
      → Type 0
  Starts (err panic) = Unit {0}
  Starts (ok (host, err (kind, reason))) = any_eq kind failure_kinds ≡ true
  Starts (ok (host, ok (e, store))) =
      (length input ≤ opts.max_input) × (length wasm ≤ opts.max_module) × IsBudgeted e

  module _ (sandbox : Sandbox)
      (made : IsBudgeted (record {
        sandbox = sandbox;
        bridge = none;
        max_step = callback_request_limit opts;
        max_completion = callback_completion_limit opts;
        max_diagnostic = opts.max_stderr;
      })) where
    attach-IsGood :
        (bridge : Result Anyhow (Option (Bridge p)))
        → IsGood (attach builders loader linking text opts sandbox bridge)
    unfolding any_eq
    attach-IsGood (err e) = refl
    attach-IsGood (ok bridge) = record {
      same_control = made.same_control;
      stdout_capacity = made.stdout_capacity;
      stderr_capacity = made.stderr_capacity;
      step_limit = refl;
      completion_limit = refl;
      diagnostic_limit = refl;
    }

    assemble-IsGood :
        (r : Here builders loader linking text × Result Anyhow (Option linking.Instance))
        → IsGood (assemble builders loader linking text opts sandbox r).1
    unfolding assemble
    assemble-IsGood (w, result) = elim (Result-cases (finish text sandbox w result)) [
      | inr ((kind, reason), failed) ↦
          rw (assemble, failed) (finish-known text sandbox w result failed)
      | inl (provider, good) ↦
          rw (assemble, good) (attach-IsGood (find_bridge linking provider w).1)
    ]

    begin-Starts :
        (w : Here builders loader linking text)
        → length input ≤ opts.max_input
        → length wasm ≤ opts.max_module
        → Starts (elim (begin builders loader linking text opts control wasm sandbox w) [
          | err panic ↦ err panic
          | ok (w', result) ↦ ok (leave w', with_store w' result)
        ])
    unfolding begin
    begin-Starts w short small =
        elim (Result-cases (execute builders loader linking text opts control wasm w)) [
          | inr (panic, panicked) ↦ rw (begin, panicked) tt
          | inl (r, done) ↦
              rw (begin, done)
                (returned (assemble builders loader linking text opts sandbox r)
                  (assemble-IsGood r))
        ]
      where
        returned :
            (a : Here builders loader linking text × Result Failure (Execution p))
            → IsGood a.1
            → Starts (ok (leave a.0, with_store a.0 a.1))
        returned (w', err (kind, reason)) known = known
        returned (w', ok e) budgeted = (short, small, budgeted)

  -- `start` refuses an input or a module beyond its limit; else, if it returns an execution, that
  -- belongs to the control of the call and keeps to the limits of the budget; and every failure has a
  -- kind that the supervisor knows.
  pub start-Starts :
      (host : Host K M) → Starts (start builders loader linking text wasm input opts control host)
  unfolding start any_eq
  start-Starts host = elim (Bool-cases (ltb opts.max_input (length input))) [
    | inl long ↦ rw (start, long) refl
    | inr short ↦ elim (Bool-cases (ltb opts.max_module (length wasm))) [
      | inl large ↦ rw (start, short, large) refl
      | inr small ↦
          elim (Result-cases (new builders input opts control host.flags host.now host.heap)) [
            | inr (e, refused) ↦ rw (start, short, small, refused) refl
            | inl ((sandbox, store, heap), made) ↦
                let fresh =
                  new-IsFresh builders input opts control host.heap host.flags host.now sandbox
                    store heap made in
                rw (start, short, small, made)
                  (begin-Starts sandbox
                    (record {
                      same_control = fresh.same_control;
                      stdout_capacity = fresh.stdout_capacity;
                      stderr_capacity = fresh.stderr_capacity;
                      step_limit = refl;
                      completion_limit = refl;
                      diagnostic_limit = refl;
                    })
                    (enter store heap host) (ground arith) (ground arith))
          ]
    ]
  ]
