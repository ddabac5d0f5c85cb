-- ===== src/Child/Operate.antt =====
-- What `child` in native/javex_nif/src/worker.rs does with a request: it compiles or executes, and sends
-- its response.
pub mod Ends
pub mod Output
pub mod Fixtures
mod Tests
use javex.Base.{
  ℕ, zero, suc, ◌≡◌, Option, none, some, List, [], ◌∷◌, String, str_eq, Anyhow, Failure, Result, ok,
  err, map_err, if◌then◌else◌,
}
use javex.Budgets.{Budgets}
use javex.Control.{Control}
use javex.Control
use javex.Cache.{Panic}
use javex.Ipc.{Json, Pipe, Parts, response}
use javex.Supervisor.{Request}
use javex.Sandbox.{World, Text}
use javex.Sandbox.Create.{Store}
use javex.Engine.{Threads, Process}
use javex.Engine.Runtime.{Parsers, Runtime, build_runtime}
use javex.Execution.{Execution}
use javex.Execution.Advance.{StateJson}
use javex.Execution.Load.{Loader}
use javex.Execution.Start.{Host, Linking, enter, start}
use javex.Compiler.Compile.{build, Toolchain, Shared, Here, compile}
use javex.Child.{serve}

-- What the operations are made of: the compiler's tools, and wasmtime as `run` uses it.
pub record Backend (H Engine K M : Type 0) : Type 1 where
  pub tools : Toolchain H Engine K M
  pub loader : Loader tools.builders.Guest tools.builders.Limits K M
  pub linking : Runtime Engine K M → Linking (Here tools) M tools.guest
  pub kinds : Json
  pub json : StateJson
  pub header_of : List ℕ → Result Anyhow Request

module _ {H Engine K M : Type 0} (backend : Backend H Engine K M) where
  open backend use {tools, loader, linking, kinds, json, header_of}

  -- How an operation ends: it needs more passes, it panics, or there is a result.
  abbrev pub Outcome : Type 0
  Outcome = Option (Result Panic (Pipe × Result Failure (List ℕ)))

  abbrev pub served : Option (Here tools × Pipe × Result Failure (List ℕ)) → Outcome
  served none = none
  served (some (w, pipe, result)) = some (ok (pipe, result))

  abbrev pub Started : Type 0
  Started = Result Panic (
      Host K M
      × Result Failure (Execution tools.guest × Store tools.builders.Guest tools.builders.Limits))

  -- The loop, if there is an execution.
  unfoldable pub drive : ℕ → List ℕ → Pipe → Started → Outcome
  drive n stdin pipe (err panic) = some (err panic)
  drive n stdin pipe (ok (host, err f)) = some (ok (pipe, err f))
  drive n stdin pipe (ok (host, ok (e, store))) =
      served
        (serve tools.text kinds json e n (91 ∷ 93 ∷ []) (enter store host.heap host) stdin pipe)

  -- The closure of `and_then`, for so many passes of the loop.
  unfoldable pub run_call :
      ℕ → Parts → Budgets → Control → Host K M → List ℕ → Pipe → Runtime Engine K M → Outcome
  unfolding drive
  run_call n parts opts control host stdin pipe runtime = drive n stdin pipe (
      start tools.builders loader (linking runtime) tools.text parts.compiled parts.input opts
        control (record host { cache = runtime.cache }))

  abbrev pub or_trap :
      (Runtime Engine K M → Outcome) → Pipe → Result Anyhow (Runtime Engine K M) → Outcome
  or_trap next pipe (ok runtime) = next runtime
  or_trap next pipe (err e) = some (ok (pipe, err ("trap", tools.text.format e)))

  -- `match request.operation.as_str()`
  unfoldable pub operate :
      ℕ → Request → Parts → Control → Shared H Engine K M → List ℕ → Pipe → Outcome
  unfolding run_call
  operate n request parts control shared stdin pipe =
      if str_eq request.operation "compile"
      then some (
          ok (
            pipe,
            map_err (λ e. ("compile_error", tools.text.format e))
                (compile tools parts.plugin parts.compiled request.limits.static_mode request.limits
                  control shared).1,
          ))
      else if str_eq request.operation "run"
      then or_trap (run_call n parts request.limits control shared.host stdin pipe) pipe
          (build tools shared.process parts.plugin)
      else some (ok (pipe, err ("worker_error", "unknown worker operation")))

  -- `response(result, maximum)`
  abbrev pub respond : ℕ → Outcome → Option (Result Panic (Result Anyhow Pipe))
  respond maximum none = none
  respond maximum (some (err panic)) = some (err panic)
  respond maximum (some (ok (pipe, result))) = some (ok (response kinds pipe result maximum))

  -- From the request on.
  unfoldable pub answer_request :
      ℕ
      → Parts
      → ℕ
      → ℕ
      → Shared H Engine K M
      → List ℕ
      → Pipe
      → Option (Result Panic (Result Anyhow Pipe))
  unfolding operate
  answer_request n parts timeout maximum shared stdin pipe = elim (header_of parts.header) [
    | err e ↦ some (ok (err e))
    | ok request ↦ elim (Control.new timeout shared.host.now shared.host.flags) [
      | err e ↦ some (ok (err e))
      | ok (control, flags) ↦ respond maximum (
          operate n request parts control
            (record shared { host = record shared.host { flags = flags } }) stdin pipe)
    ]
  ]
