-- ===== src/Plugin/Settle.antt =====
-- QuickJS as the provider uses it (native/javex_plugin/src/lib.rs), and the loop of `step` that runs its
-- jobs. A script need not end, so the loop takes fuel, as the guest does.
pub mod Relation
use javex.Base.{
  ℕ, zero, suc, Bool, true, false, Option, none, some, List, String, Anyhow, Result, ok, err,
}

-- The context of QuickJS, and what is called in it. The source and the completions are bytes that are
-- known to be UTF-8.
pub record QuickJs : Type 1 where
  pub Context : Type 0
  pub Promise : Type 0
  pub Function : Type 0
  pub Error : Type 0
  pub compile_to_bytecode : Context → List ℕ → Context × Result Anyhow (List ℕ)
  -- `Module::load(…)?.eval()?`
  pub eval_module : Context → List ℕ → Context × Result Error Promise
  -- `ctx.eval(include_str!("bridge.js"))`, called on the three limits
  pub eval_bridge : Context → ℕ → ℕ → ℕ → Context × Result Error Function
  pub call_bridge : Context → Function → List ℕ → ℕ → Context × Result Error (List ℕ)
  pub result : Context → Promise → Option (Result Error (Unit {0}))
  pub execute_pending_job : Context → Context × Bool
  pub from_js_error : Context → Error → Anyhow

module _ (js : QuickJs) (root : js.Promise) where
  open js use {Context, Error, result, execute_pending_job}

  -- The loop: how the promise is settled, if it is, once nothing more can run. `none` if the fuel
  -- ran out.
  unfoldable pub settle : ℕ → Context → Option (Context × Option (Result Error (Unit {0})))
  settle zero ctx = none
  settle (suc n) ctx = elim (result ctx root) [
    | some settled ↦ some (ctx, some settled)
    | none ↦ elim ((execute_pending_job ctx).1) [
      | false ↦ some ((execute_pending_job ctx).0, none)
      | true ↦ settle n (execute_pending_job ctx).0
    ]
  ]
