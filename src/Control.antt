-- ===== src/Control.antt =====
-- `Control` of native/javex_nif/src/sandbox.rs: the deadline of a call and its cancellation flag, which
-- the clones of a control share. Instants are nanoseconds of the monotonic clock; the time of a call
-- is an argument.
pub mod Laws
mod Tests
use mathlib.Core.Option
use javex.Base.{
  ℕ, suc, ◌+◌, ◌*◌, ◌^◌, Bool, true, false, not, Option, none, some, String, Anyhow, message, ltb,
  ◌==◌, if◌then◌else◌, Result, ok, err, ensure, ok_or, ◌>>=◌, ◌>>◌,
}

-- What every `Arc<AtomicBool>` points to, and the next place that is free.
pub record Flags : Type 0 where
  pub cell : ℕ → Bool
  pub next : ℕ

unfoldable pub store : Flags → ℕ → Bool → Flags
store flags p b = record flags { cell = λ q. if q == p then b else flags.cell q }

pub record Control : Type 0 where
  pub deadline : ℕ
  -- The `Arc`: where the shared flag lies.
  pub cancelled : ℕ

-- `Duration::from_millis`
abbrev pub from_millis : ℕ → ℕ
from_millis ms = ms * 1_000_000

-- `Instant::checked_add`: the seconds of an instant are an `i64`.
abbrev pub instant_limit : ℕ
instant_limit = 2 ^ 63 * 1_000_000_000

unfoldable pub checked_add : ℕ → ℕ → Option ℕ
checked_add instant duration =
    if ltb (instant + duration) instant_limit then some (instant + duration) else none

-- `Option::filter`
abbrev pub filter_option : {A : Type 0} → (A → Bool) → Option A → Option A
filter_option p none = none
filter_option p (some a) = if p a then some a else none

-- `Control::new`, at the time `now`.
unfoldable pub new : ℕ → ℕ → Flags → Result Anyhow (Control × Flags)
unfolding store checked_add
new timeout_ms now flags = do
  deadline ←
      ok_or (filter_option (λ _. ltb 0 timeout_ms) (checked_add now (from_millis timeout_ms)))
        (message "invalid timeout")
  ok (
    record { deadline = deadline; cancelled = flags.next },
    record (store flags flags.next false) { next = suc flags.next },
  )

unfoldable pub cancel : Control → Flags → Flags
unfolding store
cancel c flags = store flags c.cancelled true

unfoldable pub check : Control → Flags → ℕ → Result Anyhow (Unit {0})
check c flags now = do
  ensure (not (flags.cell c.cancelled)) (message "cancelled")
  ensure (ltb now c.deadline) (message "execution timed out")
