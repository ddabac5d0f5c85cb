-- ===== src/Child.antt =====
-- The loop of `child` in native/javex_nif/src/worker.rs that drives a call: each state of the provider is
-- sent as an event, and the answer is read from stdin, until the call is done or fails.
pub mod Loop
pub mod Setup
pub mod Operate
pub mod Process
mod Tests
use javex.Base.{
  ℕ, zero, suc, Option, none, some, List, [], ◌∷◌, String, Anyhow, Failure, Result, ok, err,
}
use javex.Ipc.{Json, Pipe, max_request, read_frame, event}
use javex.Sandbox.{World, Text}
use javex.Execution.{Provider, Execution, Progress, done, pending}
use javex.Execution.Advance.{StateJson, advance}

-- How one pass through the loop ends, with the pipe to the supervisor: with the result of the call, or
-- with a completion and what is left of stdin.
pub data Turn : Type 0 where
  ends : Pipe → Result Failure (List ℕ) → Turn
  waits : Pipe → List ℕ → List ℕ → Turn

module _ (text : Text) (kinds : Json) where
  -- What is read after a state was sent.
  unfoldable pub listen : Pipe → Result Anyhow (List ℕ × List ℕ × ℕ) → Turn
  listen pipe (err e) = ends pipe (err ("worker_error", text.display e))
  listen pipe (ok (completion, stdin, _)) = waits pipe completion stdin

  unfoldable pub tell : Pipe → List ℕ → Result Anyhow Pipe → Turn
  unfolding listen
  tell pipe stdin (err e) = ends pipe (err ("worker_error", text.display e))
  tell pipe stdin (ok pipe') = listen pipe' (read_frame stdin max_request)

  -- The `match` of the loop.
  unfoldable pub turn : Pipe → List ℕ → Result Failure Progress → Turn
  unfolding tell
  turn pipe stdin (err f) = ends pipe (err f)
  turn pipe stdin (ok (done bytes)) = ends pipe (ok bytes)
  turn pipe stdin (ok (pending bytes)) = tell pipe stdin (event kinds pipe "callbacks" bytes)

  module _ {G L K M : Type 0} {p : Provider (World G L K M)} (json : StateJson)
      (e : Execution p) where
    -- The loop, for so many passes at most: what it leaves, or `none` if it needs more of them.
    unfoldable pub serve :
        ℕ
        → List ℕ
        → World G L K M
        → List ℕ
        → Pipe
        → Option (World G L K M × Pipe × Result Failure (List ℕ))
    unfolding turn
    serve zero completion w stdin pipe = none
    serve (suc n) completion w stdin pipe =
        let (w', answer) = advance text json e completion w in
        elim (turn pipe stdin answer) [
          | ends pipe' result ↦ some (w', pipe', result)
          | waits pipe' completion' stdin' ↦ serve n completion' w' stdin' pipe'
        ]
