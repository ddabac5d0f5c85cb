-- ===== src/Limiter.antt =====
-- `Limiter` of native/javex_nif/src/sandbox.rs: one budget over all the memories of a store. Wasmtime's
-- `StoreLimits` is a parameter, with its two answers.
pub mod Growth
mod Tests
use javex.Base.{
  ℕ, Bool, true, false, not, ◌||◌, Option, Anyhow, message, ltb, if◌then◌else◌, Result, ok, err,
  wrapping_add, wrapping_sub, saturating_sub,
}

-- `StoreLimits` and what it answers to a request to grow.
pub record StoreLimits : Type 1 where
  pub Limits : Type 0
  pub grow_memory : Limits → ℕ → ℕ → Option ℕ → Result Anyhow Bool × Limits
  pub grow_table : Limits → ℕ → ℕ → Option ℕ → Result Anyhow Bool × Limits

pub record Limiter (L : Type 0) : Type 0 where
  pub limits : L
  pub memory_bytes : ℕ
  pub max_memory : ℕ
  pub exceeded : Bool

-- `matches!(result, Ok(true))`
abbrev pub granted : Result Anyhow Bool → Bool
granted (ok b) = b
granted (err e) = false

module _ (s : StoreLimits) where
  open s use {Limits, grow_memory, grow_table}

  unfoldable pub memory_growing :
      Limiter Limits → ℕ → ℕ → Option ℕ → Result Anyhow Bool × Limiter Limits
  memory_growing l current desired maximum =
      let growth = saturating_sub desired current in
      if ltb (wrapping_sub l.max_memory l.memory_bytes) growth
      then (err (message "guest memory limit exceeded"), record l { exceeded = true })
      else let (result, limits) = grow_memory l.limits current desired maximum in
        (
          result,
          record l {
            limits = limits;
            memory_bytes =
                if granted result then wrapping_add l.memory_bytes growth else l.memory_bytes;
            exceeded = l.exceeded || not (granted result);
          },
        )

  unfoldable pub table_growing :
      Limiter Limits → ℕ → ℕ → Option ℕ → Result Anyhow Bool × Limiter Limits
  table_growing l current desired maximum =
      let (result, limits) = grow_table l.limits current desired maximum in
      (result, record l { limits = limits; exceeded = l.exceeded || not (granted result) })

-- How many instances, memories and tables a store may have.
unfoldable pub instances : ℕ
instances = 2

unfoldable pub memories : ℕ
memories = 2

unfoldable pub tables : ℕ
tables = 2
