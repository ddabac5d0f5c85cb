-- ===== src/Execution/Start/Tests.antt =====
-- Calls that start on a concrete host: a compiler that takes a module as it is, and a guest that asks for
-- no callback.
use javex.Base.{ℕ, [], ℕ_discrete}
use javex.Cache.Invariant.{IsValid}
use javex.Execution.Load.Laws.{Returns}
use javex.Execution.Start.{Host, start}
use javex.Execution.Start.Cached.{start-Returns}
use javex.Execution.Start.Limits.{Starts, start-Starts}
use javex.Execution.Start.Fixtures.{
  text, builders, loader, linking, opts, control, host, wasm, host-IsValid,
}

start-Returns_example :
    Returns
      (λ (h : Host ℕ ℕ). IsValid ℕ_discrete h.cache)
      (start builders loader linking text wasm [] opts control host)
start-Returns_example =
    start-Returns builders loader linking text (λ bytes w v. v)
      (record {
        instantiate = λ l m w v. v;
        define = λ l n i w v. v;
        configure_func = λ i w v. v;
        call_configure = λ f a b c w v. v;
        start_func = λ i w v. v;
        call_start = λ s w v. v;
        realloc_func = λ i w v. v;
        step_func = λ i w v. v;
      })
      wasm [] opts control host host-IsValid

start-Starts_example :
    Starts builders loader linking text wasm [] opts control
      (start builders loader linking text wasm [] opts control host)
start-Starts_example = start-Starts builders loader linking text wasm [] opts control host
