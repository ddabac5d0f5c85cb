-- ===== src/Child/Operate/Ends.antt =====
-- Every operation of the child (native/javex_nif/src/worker.rs) ends, and what it has sent by then.
use javex.Base.{
  ℕ, zero, suc, ◌≤◌, ◌<◌, ◌≡◌, refl, sym, subst, Bool-cases, Option, Option-cases, none, some, inl,
  inr, List, [], ◌∷◌, ◌++◌, append-nil, str_eq, Anyhow, Failure, Result, ok, err, map_err, length,
  All, arith,
}
use javex.Budgets.{Budgets, callback_request_limit}
use javex.Control.{Control}
use javex.Ipc.{Json, Pipe, Parts}
use javex.Relay.{any_eq}
use javex.Relay.Traffic.{encoded}
use javex.Supervisor.{Request}
use javex.Engine.Runtime.{Runtime}
use javex.Execution.{Execution}
use javex.Execution.Advance.{advance}
use javex.Execution.Advance.Laws.{ReadsWhole}
use javex.Execution.Start.{Host, enter, start}
use javex.Execution.Start.Limits.{Starts, start-Starts}
use javex.Compiler.Compile.{build, Shared, Here, compile}
use javex.Child.{turn, serve}
use javex.Child.Loop.{callbacks, IsKnown, Serves, serve-Serves}
use javex.Child.Operate.{Backend, Outcome, served, Started, drive, run_call, or_trap, operate}

-- States that the child sent, each within the limit of the budget, and nothing else.
pub record Said (kinds : Json) (opts : Budgets) (pipe pipe' : Pipe) : Type 0 where
  pub states : List (List ℕ)
  pub written : pipe'.bytes ≡ pipe.bytes ++ encoded kinds (callbacks states)
  pub small : All (λ s. length s ≤ callback_request_limit opts) states

module _ {H Engine K M : Type 0} (backend : Backend H Engine K M)
    (whole : ReadsWhole backend.tools.guest) where
  open backend use {tools, loader, linking, kinds, json}

  -- An operation ends: with a panic, or with a known result, after states within their limit.
  abbrev pub Concludes : Budgets → Pipe → Outcome backend → Type 0
  Concludes opts pipe none = ⊥
  Concludes opts pipe (some (err panic)) = Unit {0}
  Concludes opts pipe (some (ok (pipe', result))) = Said kinds opts pipe pipe' × IsKnown result

  silent : (opts : Budgets) (pipe : Pipe) → Said kinds opts pipe pipe
  silent opts pipe = record { states = []; written = sym (append-nil pipe.bytes); small = tt }

  module _ (e : Execution tools.guest) (completion : List ℕ) (w : Here tools) (stdin : List ℕ)
      (pipe : Pipe) where
    plain :
        (n : ℕ)
        → e.bridge ≡ none
        → Serves tools.text kinds json e pipe
            (serve tools.text kinds json e (suc n) completion w stdin pipe)
    unfolding serve advance turn
    plain n unbridged =
        rw (serve, advance, unbridged)
          (record { states = []; written = sym (append-nil pipe.bytes); small = tt }, tt)

    -- With or without a bridge, the loop ends.
    serve_ends :
        (n : ℕ)
        → length stdin < n
        → Serves tools.text kinds json e pipe
            (serve tools.text kinds json e n completion w stdin pipe)
    serve_ends zero few = absurd (omega (arith, few))
    serve_ends (suc n) few = elim (Option-cases e.bridge) [
      | inl unbridged ↦ plain n unbridged
      | inr (b, bridged) ↦
          serve-Serves tools.text kinds json e b bridged whole (suc n) completion w stdin pipe few
    ]

  served-Concludes :
      (opts : Budgets) (e : Execution tools.guest) (pipe : Pipe)
      (o : Option (Here tools × Pipe × Result Failure (List ℕ)))
      → e.max_step ≡ callback_request_limit opts
      → Serves tools.text kinds json e pipe o
      → Concludes opts pipe (served backend o)
  served-Concludes opts e pipe none limit never = never
  served-Concludes opts e pipe (some (w, pipe', result)) limit (spoke, known) = (
    record {
      states = spoke.states;
      written = spoke.written;
      small = subst (λ n. All (λ s. length s ≤ n) spoke.states) limit spoke.small;
    },
    known,
  )

  drive-Concludes :
      (n : ℕ) (stdin : List ℕ) (pipe : Pipe) (runtime : Runtime Engine K M) (wasm input : List ℕ)
      (opts : Budgets) (control : Control) (r : Started backend)
      → length stdin < n
      → Starts tools.builders loader (linking runtime) tools.text wasm input opts control r
      → Concludes opts pipe (drive backend n stdin pipe r)
  unfolding drive
  drive-Concludes n stdin pipe runtime wasm input opts control (err panic) few started = tt
  drive-Concludes n stdin pipe runtime wasm input opts control (ok (host, err (kind, reason))) few
        started =
      (silent opts pipe, started)
  drive-Concludes n stdin pipe runtime wasm input opts control (ok (host, ok (e, store))) few
        (_, _, budgeted) =
      served-Concludes opts e pipe
        (serve tools.text kinds json e n (91 ∷ 93 ∷ []) (enter store host.heap host) stdin pipe)
        budgeted.step_limit
        (serve_ends e (91 ∷ 93 ∷ []) (enter store host.heap host) stdin pipe n few)

  run_call-Concludes :
      (n : ℕ) (parts : Parts) (opts : Budgets) (control : Control) (host : Host K M)
      (stdin : List ℕ) (pipe : Pipe) (runtime : Runtime Engine K M)
      → length stdin < n
      → Concludes opts pipe (run_call backend n parts opts control host stdin pipe runtime)
  unfolding run_call
  run_call-Concludes n parts opts control host stdin pipe runtime few =
      drive-Concludes n stdin pipe runtime parts.compiled parts.input opts control
        (start tools.builders loader (linking runtime) tools.text parts.compiled parts.input opts
          control (record host { cache = runtime.cache }))
        few
        (start-Starts tools.builders loader (linking runtime) tools.text parts.compiled parts.input
          opts control (record host { cache = runtime.cache }))

  compiled-IsKnown :
      (r : Result Anyhow (List ℕ))
      → IsKnown (map_err (λ e. ("compile_error", tools.text.format e)) r)
  unfolding any_eq
  compiled-IsKnown (ok bytes) = tt
  compiled-IsKnown (err e) = refl

  or_trap-Concludes :
      (opts : Budgets) (pipe : Pipe) (next : Runtime Engine K M → Outcome backend)
      (r : Result Anyhow (Runtime Engine K M))
      → ((runtime : Runtime Engine K M) → Concludes opts pipe (next runtime))
      → Concludes opts pipe (or_trap backend next pipe r)
  unfolding any_eq
  or_trap-Concludes opts pipe next (ok runtime) after = after runtime
  or_trap-Concludes opts pipe next (err e) after = (silent opts pipe, refl)

  -- If reads of the memory are whole, every operation ends, with more passes than stdin has bytes:
  -- unless it panics, it has sent states within the limit of the budget and nothing else, and its
  -- result is a value or a failure of a kind that the supervisor knows.
  pub operate-Concludes :
      (n : ℕ) (request : Request) (parts : Parts) (control : Control) (shared : Shared H Engine K M)
      (stdin : List ℕ) (pipe : Pipe)
      → length stdin < n
      → Concludes request.limits pipe (operate backend n request parts control shared stdin pipe)
  unfolding operate any_eq
  operate-Concludes n request parts control shared stdin pipe few =
      elim (Bool-cases (str_eq request.operation "compile")) [
        | inl compiles ↦
            rw (operate, compiles)
              (
                silent request.limits pipe,
                compiled-IsKnown
                    (compile tools parts.plugin parts.compiled request.limits.static_mode
                      request.limits control shared).1,
              )
        | inr other ↦ elim (Bool-cases (str_eq request.operation "run")) [
          | inl runs ↦
              rw (operate, other, runs)
                (or_trap-Concludes request.limits pipe
                  (run_call backend n parts request.limits control shared.host stdin pipe)
                  (build tools shared.process parts.plugin)
                  (λ runtime.
                    run_call-Concludes n parts request.limits control shared.host stdin pipe runtime
                      few))
          | inr unknown ↦ rw (operate, other, unknown) (silent request.limits pipe, refl)
        ]
      ]
