-- ===== src/Supervisor.antt =====
-- `supervise` and the command line of native/javex_nif/src/worker.rs: the limits that follow from a
-- request, the loop that waits for the child, and the exit code. What the loop sees each time it polls
-- is an argument: the child's status, the two flags that the other threads set, and the time.
pub mod Exit
pub mod Line
pub mod Completions
mod Tests
use javex.Base.{
  ℕ, ◌+◌, ◌*◌, ◌^◌, ◌-◌, min, max, Bool, true, false, ◌&&◌, Option, none, some, List, [], ◌∷◌,
  String, str_eq, Anyhow, message, length, leb, ltb, ◌==◌, if◌then◌else◌, Result, ok, err, is_err,
  ensure, ok_or, ◌>>=◌, ◌>>◌,
}
use javex.Budgets.{Budgets, callback_request_limit, callback_completion_limit}
use javex.Ipc.{max_request}
use javex.Relay.{Maxima}

-- The header of a request.
pub record Request : Type 0 where
  pub operation : String
  pub limits : Budgets

-- The limits of a call, as the supervisor's threads take them.
pub record Plan : Type 0 where
  pub max_callbacks : ℕ
  pub completion_maximum : ℕ
  pub maxima : Maxima

-- `usize::clamp`
abbrev pub clamp : ℕ → ℕ → ℕ → ℕ
clamp x low high = min (max x low) high

unfoldable pub plan : Request → Plan
plan r = record {
  max_callbacks = r.limits.max_callback_calls;
  completion_maximum = callback_completion_limit r.limits;
  maxima = record {
    callback_maximum = callback_request_limit r.limits;
    result_maximum =
        min (if str_eq r.operation "compile" then r.limits.max_module else r.limits.max_output)
          max_request;
    diagnostic_maximum = clamp r.limits.max_stderr 4096 max_request;
  };
}

-- `ExitStatus`: a code, or the signal that ended the process.
pub data ExitStatus : Type 0 where
  exited : ℕ → ExitStatus
  signalled : ℕ → ExitStatus

-- `status.code().unwrap_or(128 + status.signal().unwrap_or(0))`
abbrev pub exit_code : ExitStatus → ℕ
exit_code (exited code) = code
exit_code (signalled signal) = 128 + signal

-- What one round of the waiting loop sees.
pub record Observation : Type 0 where
  pub status : Option ExitStatus
  pub cancelled : Bool
  pub overflow : Bool
  pub now : ℕ

-- Why the loop kills a child that is still running.
unfoldable pub reason : ℕ → Observation → Option ℕ
reason deadline o =
    if o.cancelled
    then some 125
    else if o.overflow
    then some 126
    else if leb deadline o.now
    then some 124
    else none

-- One round: the code to leave the loop with, if any.
unfoldable pub poll_once : ℕ → Observation → Option ℕ
unfolding reason
poll_once deadline o = elim o.status [
  | some status ↦ some (exit_code status)
  | none ↦ reason deadline o
]

-- The loop over what it sees; `none` if it is still waiting.
unfoldable pub poll : ℕ → List Observation → Option ℕ
poll deadline [] = none
poll deadline (o ∷ os) = elim (poll_once deadline o) [
  | some code ↦ some code
  | none ↦ poll deadline os
]

-- The exit code of the supervisor, with the result of the reader thread.
unfoldable pub final_code : ℕ → Result Anyhow (Unit {0}) → ℕ
final_code status reader = if (status == 0) && is_err reader then 126 else status

-- The numbers of the command line, once they are parsed.
pub record Args : Type 0 where
  pub memory : ℕ
  pub timeout : ℕ
  pub maximum : ℕ

-- The checks of `main` on them.
unfoldable pub check_args : Args → Result Anyhow (Unit {0})
check_args a = do
  ensure
      (ltb 0 a.memory
        && (leb a.memory (2 ^ 63 - 1) && (ltb 0 a.timeout && leb a.timeout (2 ^ 31 - 1))))
      (message "invalid process budget")
  ensure (leb a.maximum max_request) (message "IPC response limit exceeded")
