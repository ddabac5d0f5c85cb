-- ===== src/Child/Process.antt =====
-- `child` of native/javex_nif/src/worker.rs as a whole.
mod Tests
use javex.Base.{
  ℕ, ◌<◌, ◌≡◌, refl, Option, none, some, inl, inr, List, Anyhow, Result, Result-cases, ok, err,
  length,
}
use javex.Cache.{Panic}
use javex.Ipc.{Pipe, Parts, request}
use javex.Isolation.{filter}
use javex.Execution.Advance.Laws.{ReadsWhole}
use javex.Compiler.Compile.{Shared}
use javex.Child.Setup.{Boot, Platform, set_up}
use javex.Child.Setup.Order.{IsReady, set_up-IsReady}
use javex.Child.Operate.{Backend, answer_request}
use javex.Child.Operate.Output.{Answers, answer_request-Answers}

module _ {H Engine K M : Type 0} (platform : Platform Engine) (backend : Backend H Engine K M) where
  -- The engine of the set-up is the one of the operation.
  unfoldable pub child_process :
      ℕ
      → ℕ
      → ℕ
      → ℕ
      → ℕ
      → Boot Engine
      → Shared H Engine K M
      → Pipe
      → Option (Result Panic (Result Anyhow Pipe))
  child_process n parent memory timeout maximum boot shared pipe =
      let (boot', received) = set_up platform parent memory timeout boot in
      elim received [
        | err e ↦ some (ok (err e))
        | ok parts ↦
            answer_request backend n parts timeout maximum
              (record shared { process = boot'.process }) boot'.stdin pipe
      ]

  -- Without a request there is no answer, and with one, the process is confined.
  abbrev pub Serves :
      ℕ
      → ℕ
      → ℕ
      → ℕ
      → ReadsWhole backend.tools.guest
      → Boot Engine
      → Pipe
      → Option (Result Panic (Result Anyhow Pipe))
      → Boot Engine × Result Anyhow Parts
      → Type 0
  Serves parent memory timeout maximum whole boot pipe o (boot', err e) = o ≡ some (ok (err e))
  Serves parent memory timeout maximum whole boot pipe o (boot', ok parts) =
      IsReady platform parent memory timeout boot boot' parts
      × Answers backend whole parts.header maximum pipe o

  -- The child either fails before it has a request, and says nothing; or it is confined under the policy,
  -- and what it then writes, to its end, is what the supervisor of the request lets through. The
  -- passes that it needs are more than what is left of stdin after the request.
  pub child_process-Serves :
      (whole : ReadsWhole backend.tools.guest) (n parent memory timeout maximum : ℕ)
      (boot : Boot Engine) (shared : Shared H Engine K M) (pipe : Pipe)
      → length (set_up platform parent memory timeout boot).0.stdin < n
      → Serves parent memory timeout maximum whole boot pipe
          (child_process n parent memory timeout maximum boot shared pipe)
          (set_up platform parent memory timeout boot)
  unfolding child_process
  child_process-Serves whole n parent memory timeout maximum boot shared pipe few =
      served (set_up platform parent memory timeout boot) refl few
    where
      served :
          (r : Boot Engine × Result Anyhow Parts)
          → set_up platform parent memory timeout boot ≡ r
          → length r.0.stdin < n
          → Serves parent memory timeout maximum whole boot pipe
              (elim r.1 [
                | err e ↦ some (ok (err e))
                | ok parts ↦
                    answer_request backend n parts timeout maximum
                      (record shared { process = r.0.process })
                      r.0.stdin
                      pipe
              ])
              r
      served (boot', err e) h short = refl
      served (boot', ok parts) h short = (
        set_up-IsReady platform parent memory timeout boot boot' parts h,
        answer_request-Answers backend whole n parts timeout maximum
            (record shared { process = boot'.process }) boot'.stdin pipe short,
      )
