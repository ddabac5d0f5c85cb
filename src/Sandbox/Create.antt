-- ===== src/Sandbox/Create.antt =====
-- `Sandbox::new` of native/javex_nif/src/sandbox.rs: what a call is created with. Wasmtime's builders
-- are parameters.
pub mod Fresh
use javex.Base.{
  ℕ, suc, ◌+◌, ◌≤◌, ◌<◌, ◌≡◌, ◌≢◌, ◌↔◌, refl, sym, ap, ◌∙◌, Bool, true, false, not, ◌&&◌, List, [],
  ◌∷◌, String, Anyhow, message, ltb, ◌==◌, if◌then◌else◌, Result, ok, err, ensure, ◌>>=◌, ◌>>◌,
  arith, ok-injective, ensure-eq-ok, >>=-eq-ok,
}
use javex.Output.{Output, Heap, default}
use javex.Output
use javex.Control.{Control, Flags, check}
use javex.Limiter.{Limiter}
use javex.Budgets.{Budgets}
use javex.Sandbox.{Sandbox, World, Text, finish}

-- `StoreLimitsBuilder`, `WasiCtxBuilder` with `Store::new`, and `Store::set_fuel`.
pub record Builders : Type 1 where
  pub Limits : Type 0
  pub Guest : Type 0
  pub build_limits : ℕ → ℕ → Limits
  pub build_store : List ℕ → List (String × String) → Output → Output → Guest
  pub set_fuel : Guest → ℕ → Result Anyhow Guest

-- `StoreContext`, beside what wasmtime keeps in the store.
pub record Store (G L : Type 0) : Type 0 where
  pub guest : G
  pub limiter : Limiter L

-- What the epoch callback answers: after how many ticks it is called next.
pub data UpdateDeadline : Type 0 where
  continue : ℕ → UpdateDeadline

-- The closure of `epoch_deadline_callback`
unfoldable pub on_epoch : Control → Flags → ℕ → Result Anyhow UpdateDeadline
on_epoch control flags now = do check control flags now; ok (continue 1)

abbrev pub max_table_elements : ℕ
max_table_elements = 100_000

abbrev pub is_valid_budget : Budgets → Bool
is_valid_budget opts = ltb 0 opts.max_memory && (ltb 0 opts.max_input && ltb 0 opts.max_module)

module _ (builders : Builders) where
  open builders use {Limits, Guest, build_limits, build_store, set_fuel}

  abbrev pub new_limiter : Budgets → Limiter Limits
  new_limiter opts = record {
    limits = build_limits opts.max_memory max_table_elements;
    memory_bytes = 0;
    max_memory = opts.max_memory;
    exceeded = false;
  }

  -- The two streams, then the store that writes to them.
  unfoldable pub build :
      List ℕ → Budgets → Control → Heap → Result Anyhow (Sandbox × Store Guest Limits × Heap)
  build input opts control heap =
      let (stdout, heap') = Output.new opts.max_output heap in
      let (stderr, heap'') = Output.new opts.max_stderr heap' in
      do
        guest ← set_fuel (build_store input opts.env stdout stderr) opts.fuel
        ok (
          record { stdout = stdout; stderr = stderr; control = control },
          record { guest = guest; limiter = new_limiter opts },
          heap'',
        )

  unfoldable pub new :
      List ℕ
      → Budgets
      → Control
      → Flags
      → ℕ
      → Heap
      → Result Anyhow (Sandbox × Store Guest Limits × Heap)
  unfolding build
  new input opts control flags now heap = do
    ensure (is_valid_budget opts) (message "invalid budget")
    check control flags now
    build input opts control heap
