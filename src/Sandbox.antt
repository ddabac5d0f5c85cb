-- ===== src/Sandbox.antt =====
-- `Sandbox` of native/javex_nif/src/sandbox.rs: what one call runs in, and how its outcome is reported.
-- Wasmtime, WASI and the text formats are parameters. A guest that is called may change all of the
-- world: its own store, the limiter, the streams, and while it runs time passes and others may cancel.
pub mod Finish
pub mod Create
mod Tests
use javex.Base.{
  ℕ, suc, ◌+◌, Bool, true, false, not, ◌&&◌, Option, none, some, List, [], ◌∷◌, String, Anyhow,
  message, trapped, Trap, Failure, length, ltb, leb, if◌then◌else◌, Result, ok, err, map_err,
  ensure,
}
use javex.Output.{Output, Heap}
use javex.Output
use javex.Control.{Control, Flags, check}
use javex.Cache.{Cache, Panic}
use javex.Limiter.{Limiter}
use javex.Budgets.{Budgets}

-- How errors and bytes become text: `{error:#}`, `error.to_string()` and `String::from_utf8_lossy`.
pub record Text : Type 0 where
  pub format : Anyhow → String
  pub display : Anyhow → String
  pub lossy : List ℕ → String

-- What a call can see and change: the guest's own store, and the host's state.
pub record World (G L K M : Type 0) : Type 0 where
  pub guest : G
  pub limiter : Limiter L
  pub heap : Heap
  pub flags : Flags
  pub now : ℕ
  pub cache : Cache K M

-- The handles of one call.
pub record Sandbox : Type 0 where
  pub stdout : Output
  pub stderr : Output
  pub control : Control

-- `String::is_empty`
abbrev pub is_blank : String → Bool
is_blank String.[] = true
is_blank (String.◌∷◌ c s) = false

-- `error.downcast_ref::<Trap>()` is this trap.
abbrev pub is_out_of_fuel : Anyhow → Bool
is_out_of_fuel (trapped Trap.out_of_fuel) = true
is_out_of_fuel _ = false

abbrev pub is_unreachable : Anyhow → Bool
is_unreachable (trapped Trap.unreachable_code_reached) = true
is_unreachable _ = false

module _ (text : Text) where
  -- The closure of `map_err`: what an error of the guest means, given what it wrote to stderr.
  unfoldable pub explain : List ℕ → Anyhow → Failure
  explain stderr error =
      if is_out_of_fuel error
      then ("fuel_exhausted", "fuel exhausted")
      else let diagnostics = text.lossy stderr in
        if not (is_blank diagnostics) && is_unreachable error
        then ("js_error", diagnostics)
        else ("trap", text.format error)

  module _ {G L K M : Type 0} where
    unfoldable pub finish {ℓ} :
        {A : Type ℓ} → Sandbox → World G L K M → Result Anyhow A → Result Failure A
    finish s w result =
        if w.flags.cell s.control.cancelled
        then err ("cancelled", "execution cancelled")
        else if leb s.control.deadline w.now
        then err ("timeout", "execution timed out")
        else if w.limiter.exceeded
        then err ("oom", "guest memory or table limit exceeded")
        else if Output.exceeded s.stdout w.heap
        then err ("output_limit", "stdout limit exceeded")
        else if Output.exceeded s.stderr w.heap
        then err ("diagnostic_limit", "stderr limit exceeded")
        else map_err (explain (Output.contents s.stderr w.heap)) result
