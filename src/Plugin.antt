-- ===== src/Plugin.antt =====
-- native/javex_plugin/src/lib.rs: the functions that the provider exports to the host. QuickJS, with
-- Javy's configuration of it, and the allocator are parameters.
pub mod Memory
pub mod Realloc
pub mod Settle
pub mod Step
pub mod Bridge
mod Tests
use javex.Base.{
  ℕ, zero, suc, ◌+◌, ◌≡◌, Bool, true, false, not, ◌&&◌, Option, none, some, List, [], ◌∷◌, String,
  into_bytes, Anyhow, message, Result, ok, err, map_err, length, ◌==◌, if◌then◌else◌, u32_mod,
}

-- How a call of an exported function ends: it returns, with what it leaves, or it stops the
-- guest for good, by a panic or by `abort` after a line on stderr.
pub data Ends (S A : Type 0) : Type 0 where
  returns : S → A → Ends S A
  panics : Ends S A
  aborts : Anyhow → Ends S A
