-- ===== src/Base/Errors.antt =====
-- Errors as the crate reports them: wasmtime traps, which are told apart, and messages.
use Prim.Native.String.{String}

-- The traps of wasmtime that `Sandbox::finish` looks for, and any other.
pub data Trap : Type 0 where
  out_of_fuel : Trap
  unreachable_code_reached : Trap
  other_trap : String → Trap

-- `anyhow::Error`
pub data Anyhow : Type 0 where
  message : String → Anyhow
  trapped : Trap → Anyhow

-- `(&'static str, String)`: the kind of a failure, and what is said of it.
abbrev pub Failure : Type 0
Failure = String × String
