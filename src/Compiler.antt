-- ===== src/Compiler.antt =====
-- native/javex_nif/src/compiler.rs: the permits, and the provider that is kept. What the provider does in
-- the sandbox is in Source.
pub mod Permits
pub mod Source
pub mod Cached
pub mod Wrapper
pub mod Compile
mod Tests
use mathlib.Core.Logic.{ite}
use mathlib.Core.Option
use javex.Base.{
  ℕ, suc, ◌+◌, Bool, true, false, Option, none, some, List, Anyhow, ltb, if◌then◌else◌, Result, ok,
  err, wrapping_sub,
}

-- `COMPILING.fetch_update`: one more, below sixteen.
unfoldable pub acquire : ℕ → Option ℕ
acquire count = if ltb count 16 then some (count + 1) else none

-- `CompilerPermit::drop`
unfoldable pub release : ℕ → ℕ
release count = wrapping_sub count 1

-- `Provider`: the hash of a plugin, and the runtime that was built from it.
pub record Provider (H R : Type 0) : Type 0 where
  pub hash : H
  pub runtime : R

module _ {H R : Type 0} (dec : Discrete H) (digest : List ℕ → H)
    (build_runtime : List ℕ → Result Anyhow R) where
  -- `cached.as_ref().filter(|provider| provider.hash == hash)`
  unfoldable pub cached_runtime : H → Option (Provider H R) → Option R
  cached_runtime hash none = none
  cached_runtime hash (some p) = ite (dec p.hash hash) (some p.runtime) none

  -- `provider`: the one that is kept, or a new one, which takes its place.
  unfoldable pub provider : List ℕ → Option (Provider H R) → Option (Provider H R) × Result Anyhow R
  provider bytes cached = elim (cached_runtime (digest bytes) cached) [
    | some runtime ↦ (cached, ok runtime)
    | none ↦ elim (build_runtime bytes) [
      | err e ↦ (cached, err e)
      | ok runtime ↦ (some (record { hash = digest bytes; runtime = runtime }), ok runtime)
    ]
  ]
