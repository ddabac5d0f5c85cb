-- ===== src/Budgets.antt =====
-- `Budgets` of native/javex_nif/src/sandbox.rs: the limits of one call, and the frame limits that
-- follow from them. `u32 as usize` changes no value.
pub mod Bounds
mod Tests
use javex.Base.{ℕ, ◌+◌, ◌*◌, min, Bool, List, String, saturating_add, saturating_mul}

pub record Budgets : Type 0 where
  pub fuel : ℕ
  pub max_memory : ℕ
  pub max_input : ℕ
  pub max_output : ℕ
  pub max_stderr : ℕ
  pub max_module : ℕ
  pub max_callback_calls : ℕ
  pub max_callback_concurrency : ℕ
  pub max_callback_input : ℕ
  pub max_callback_output : ℕ
  pub env : List (String × String)
  pub static_mode : Bool

unfoldable pub callback_request_limit : Budgets → ℕ
callback_request_limit b =
    min
      (saturating_add
        (saturating_mul b.max_callback_concurrency
          (saturating_add (saturating_mul b.max_callback_input 6) 2048))
        4096)
      (64 * 1024 * 1024)

unfoldable pub callback_completion_limit : Budgets → ℕ
callback_completion_limit b =
    min (saturating_add (saturating_mul b.max_callback_output 6) 4096) (64 * 1024 * 1024)
