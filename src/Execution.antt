-- ===== src/Execution.antt =====
-- `Execution` of native/javex_nif/src/sandbox.rs: a call that is under way, which goes on by one
-- completion at a time. A step of the host or of the guest takes the world and returns it with a
-- result; `?` stops at the first error, with the world as it is by then.
pub mod Advance
pub mod Load
pub mod Start
mod Tests
use javex.Base.{ℕ, zero, suc, ◌+◌, ◌*◌, Option, List, [], ◌∷◌, Anyhow, Result, ok, err}
use javex.Control.{Control, check}
use javex.Sandbox.{Sandbox, World}

abbrev pub Act : Type 0 → Type 0 → Type 0
Act W A = W → W × Result Anyhow A

abbrev pub proceed : {W A B : Type 0} → W × Result Anyhow A → (A → Act W B) → W × Result Anyhow B
proceed (w, ok a) next = next a w
proceed (w, err e) next = (w, err e)

infixl 5 ◌>>=◌ ◌>>◌
abbrev pub ◌>>=◌ : {W A B : Type 0} → Act W A → (A → Act W B) → Act W B
act >>= next = λ w. proceed (act w) next

abbrev pub ◌>>◌ : {W B : Type 0} → Act W (Unit {0}) → Act W B → Act W B
act >> after = act >>= λ _. after

-- A result that touches nothing.
abbrev pub lift : {W A : Type 0} → Result Anyhow A → Act W A
lift r w = (w, r)

-- What wasmtime gives of the provider: its memory and its functions, `cabi_realloc` and
-- `javex-step-v1`. A read returns as many bytes as it was asked for.
pub record Provider (W : Type 0) : Type 1 where
  pub Memory : Type 0
  pub Realloc : Type 0
  pub Step : Type 0
  pub call_realloc : Realloc → ℕ → ℕ → ℕ → ℕ → Act W ℕ
  pub call_step : Step → ℕ → ℕ → Act W ℕ
  pub write_memory : Memory → ℕ → List ℕ → Act W (Unit {0})
  pub read_memory : Memory → ℕ → ℕ → Act W (List ℕ)

pub record Bridge {W : Type 0} (p : Provider W) : Type 0 where
  pub memory : p.Memory
  pub realloc : p.Realloc
  pub step : p.Step

pub record Execution {W : Type 0} (p : Provider W) : Type 0 where
  pub sandbox : Sandbox
  pub bridge : Option (Bridge p)
  pub max_step : ℕ
  pub max_completion : ℕ
  pub max_diagnostic : ℕ

pub data Progress : Type 0 where
  done : List ℕ → Progress
  pending : List ℕ → Progress

-- `control.check()?`
abbrev pub check_control : {G L K M : Type 0} → Control → Act (World G L K M) (Unit {0})
check_control control w = (w, check control w.flags w.now)

-- `u32::from_le_bytes`
abbrev pub from_le_bytes : List ℕ → ℕ
from_le_bytes [] = 0
from_le_bytes (b ∷ bs) = b + 256 * from_le_bytes bs
