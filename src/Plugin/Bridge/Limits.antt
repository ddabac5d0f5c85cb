-- ===== src/Plugin/Bridge/Limits.antt =====
-- How many callbacks wait at once in native/javex_plugin/src/bridge.js.
use javex.Base.{ℕ, ◌≤◌, length}
use javex.Plugin.Bridge.{call, no_calls, calls, Bridge, Event, calls_host, completes, reports}

-- No code of the guest makes a call while the argument is turned into JSON.
abbrev pub IsFlat : Event → Type 0
IsFlat (calls_host (call name no_calls json)) = Unit {0}
IsFlat (calls_host (call name (calls c cs) json)) = ⊥
IsFlat (completes ids) = Unit {0}
IsFlat (reports done) = Unit {0}

module _ (max_calls max_concurrent max_input : ℕ) where
  -- What waits, and what is sent, within the limit.
  pub record IsWithin (s : Bridge) : Type 0 where
    pub waiting : length s.pending ≤ max_concurrent
