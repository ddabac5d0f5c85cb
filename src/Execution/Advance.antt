-- ===== src/Execution/Advance.antt =====
-- `Execution::advance` of native/javex_nif/src/sandbox.rs. `serde_json` is a parameter.
pub mod Laws
pub mod Refused
use javex.Base.{
  ℕ, Bool, true, false, not, Option, none, some, List, [], ◌∷◌, String, Anyhow, message, Failure,
  length, take, drop, leb, ◌==◌, if◌then◌else◌, Result, ok, err, ensure,
}
use javex.Output
use javex.Ipc.{try_from}
use javex.Sandbox.{World, Text, finish}
use javex.Execution.{
  Act, proceed, ◌>>=◌, ◌>>◌, lift, Provider, Bridge, Execution, Progress, done, pending,
  check_control, from_le_bytes,
}

-- `serde_json::from_slice`, and `state[key] == true`.
pub record StateJson : Type 1 where
  pub Value : Type 0
  pub from_slice : List ℕ → Result Anyhow Value
  pub is_true : Value → String → Bool

module _ {W : Type 0} {p : Provider W} (e : Execution p) where
  -- The `match tag`: whether the result is to be read.
  unfoldable pub verdict : ℕ → ℕ → Result Anyhow Bool
  verdict tag result_len =
      if tag == 0
      then if leb result_len e.max_step
        then ok true
        else err (message "callback request frame limit exceeded")
      else if tag == 1
      then ok (leb result_len e.max_diagnostic)
      else err (message "invalid provider result tag")

  -- The end of the closure: what is read, and the completion freed; or nothing is.
  unfoldable pub fetch : Bridge p → ℕ → ℕ → ℕ → ℕ → ℕ → Bool → Act W (ℕ × List ℕ)
  fetch b tag ptr len result_ptr result_len false = lift (ok (2, []))
  fetch b tag ptr len result_ptr result_len true = do
    bytes ← p.read_memory b.memory result_ptr result_len
    _ ← p.call_realloc b.realloc ptr len 1 0
    lift (ok (tag, bytes))

  -- The closure, from the call of the provider on.
  unfoldable pub exchange : Bridge p → List ℕ → ℕ → Act W (ℕ × List ℕ)
  exchange b completion len = do
    ptr ← p.call_realloc b.realloc 0 0 1 len
    p.write_memory b.memory ptr completion
    place ← p.call_step b.step ptr len
    fields ← p.read_memory b.memory place 12
    let tag = from_le_bytes (take 4 fields)
    let result_ptr = from_le_bytes (take 4 (drop 4 fields))
    let result_len = from_le_bytes (take 4 (drop 8 fields))
    readable ← lift (verdict tag result_len)
    fetch b tag ptr len result_ptr result_len readable

module _ {G L K M : Type 0} {p : Provider (World G L K M)} (text : Text) (json : StateJson)
    (e : Execution p) where
  -- The closure of `advance`.
  unfoldable pub step_once : Bridge p → List ℕ → Act (World G L K M) (ℕ × List ℕ)
  unfolding exchange
  step_once b completion = do
    check_control e.sandbox.control
    lift (
        ensure (leb (length completion) e.max_completion)
          (message "callback completion limit exceeded"))
    len ← lift (try_from (length completion))
    exchange e b completion len

  -- What a state of the provider means.
  unfoldable pub progress :
      World G L K M → List ℕ → Result Anyhow json.Value → Result Failure Progress
  progress w bytes (err error) = err ("trap", text.display error)
  progress w bytes (ok state) =
      if json.is_true state "fatal"
      then err ("callback_limit", "callback budget exceeded")
      else if json.is_true state "done"
      then ok (done (Output.contents e.sandbox.stdout w.heap))
      else ok (pending bytes)

  -- The rest of `advance`, after `finish`.
  unfoldable pub conclude : World G L K M → Result Failure (ℕ × List ℕ) → Result Failure Progress
  unfolding progress
  conclude w (err f) = err f
  conclude w (ok (tag, bytes)) =
      if tag == 2
      then err ("diagnostic_limit", "JavaScript diagnostic limit exceeded")
      else if not (tag == 0)
      then err ("js_error", text.lossy bytes)
      else progress w bytes (json.from_slice bytes)

  unfoldable pub advance : List ℕ → World G L K M → World G L K M × Result Failure Progress
  advance completion w = elim e.bridge [
    | none ↦ (w, ok (done (Output.contents e.sandbox.stdout w.heap)))
    | some b ↦
        let (w', result) = step_once b completion w in
        (w', conclude w' (finish text e.sandbox w' result))
  ]
