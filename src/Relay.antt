-- ===== src/Relay.antt =====
-- The supervisor's reader thread (native/javex_nif/src/worker.rs, `supervise`): it checks each event of
-- the child before it passes the event on, so that a child that escaped its sandbox cannot flood the
-- BEAM. The child's output is the list of its bytes up to the end of the stream.
pub mod Traffic
pub mod Honest
mod Tests
use javex.Base.{
  ℕ, zero, suc, ◌+◌, Bool, true, false, not, ◌||◌, Option, none, some, List, [], ◌∷◌, String,
  str_eq, Anyhow, message, length, if◌then◌else◌, Result, ok, err, ensure, ok_or, ◌>>=◌, ◌>>◌,
  wrapping_sub, min,
}
use javex.Ipc.{Json, Pipe, read_frame, event}

-- The payload limits of callbacks, of the result and of diagnostics.
pub record Maxima : Type 0 where
  pub callback_maximum : ℕ
  pub result_maximum : ℕ
  pub diagnostic_maximum : ℕ

-- The kinds of a failed call that the supervisor knows.
abbrev pub failure_kinds : List String
failure_kinds =
    "timeout" ∷ "cancelled" ∷ "fuel_exhausted" ∷ "oom" ∷ "js_error" ∷ "trap" ∷ "output_limit"
    ∷ "diagnostic_limit" ∷ "input_limit" ∷ "module_limit" ∷ "compile_error" ∷ "worker_error"
    ∷ "callback_limit" ∷ "callback_timeout" ∷ []

unfoldable pub any_eq : String → List String → Bool
any_eq k [] = false
any_eq k (j ∷ js) = str_eq k j || any_eq k js

-- `match kind.as_str()`: the limit of a kind, or none for an unknown one.
unfoldable pub maximum_for : Maxima → String → Option ℕ
unfolding any_eq
maximum_for m kind =
    if str_eq kind "callbacks"
    then some m.callback_maximum
    else if str_eq kind "ok"
    then some m.result_maximum
    else if any_eq kind failure_kinds
    then some m.diagnostic_maximum
    else none

-- What one round leaves: the kind, the pipe to the BEAM, the child's output and the budget.
pub record Round : Type 0 where
  pub kind : String
  pub pipe : Pipe
  pub stream : List ℕ
  pub remaining : ℕ

-- A read of one more byte returns none: the stream has ended.
abbrev pub is_empty : List ℕ → Bool
is_empty [] = true
is_empty (b ∷ bs) = false

module _ (json : Json) (m : Maxima) where
  -- One pass through the body of the `for` loop, up to the test of the kind.
  unfoldable pub round : ℕ → List ℕ → Pipe → Result Anyhow Round
  round remaining stream pipe = do
    (header, stream', _) ← read_frame stream (min 4096 remaining)
    let remaining' = wrapping_sub remaining (length header)
    kind ← json.from_slice header
    maximum ← ok_or (maximum_for m kind) (message "unknown worker event")
    (bytes, stream'', _) ← read_frame stream' (min maximum remaining')
    pipe' ← event json pipe kind bytes
    ok (record {
      kind = kind;
      pipe = pipe';
      stream = stream'';
      remaining = wrapping_sub remaining' (length bytes);
    })

  -- The `for` loop over the rounds that are left. A round that fails sends nothing.
  unfoldable pub relay : ℕ → ℕ → List ℕ → Pipe → Pipe × Result Anyhow (Unit {0})
  relay zero remaining stream pipe = (pipe, err (message "too many worker protocol frames"))
  relay (suc n) remaining stream pipe = elim (round remaining stream pipe) [
    | err e ↦ (pipe, err e)
    | ok r ↦ elim (str_eq r.kind "callbacks") [
      | true ↦ relay n r.remaining r.stream r.pipe
      | false ↦ (r.pipe, ensure (is_empty r.stream) (message "extra worker output"))
    ]
  ]
