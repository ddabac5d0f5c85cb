-- ===== src/Engine.antt =====
-- `initialize_engine` and `build_runtime` of native/javex_nif/src/sandbox.rs: the one engine of a process,
-- and the runtimes of its plugins. Wasmtime, the threads and wasmparser are parameters.
pub mod Once
pub mod Runtime
mod Tests
use javex.Base.{
  ℕ, suc, ◌+◌, ◌*◌, Bool, true, false, Option, none, some, List, [], ◌∷◌, String, Anyhow, message,
  Result, ok, err, map_err, ◌>>=◌, ◌>>◌,
}

-- The settings of `wasmtime::Config` that are made; `none` leaves the default.
pub record Config : Type 0 where
  pub consume_fuel : Bool
  pub epoch_interruption : Bool
  pub wasm_memory64 : Bool
  pub wasm_multi_memory : Bool
  pub memory_reservation : Option ℕ
  pub memory_reservation_for_growth : Option ℕ
  pub memory_guard_size : Option ℕ
  pub memory_init_cow : Bool

abbrev base_config : Config
base_config = record {
  consume_fuel = true;
  epoch_interruption = true;
  wasm_memory64 = false;
  wasm_multi_memory = false;
  memory_reservation = none;
  memory_reservation_for_growth = none;
  memory_guard_size = none;
  memory_init_cow = true;
}

unfoldable pub config : Bool → Config
config false = base_config
config true = record base_config {
  memory_reservation = some 0;
  memory_reservation_for_growth = some 0;
  memory_guard_size = some (64 * 1024);
  memory_init_cow = false;
}

-- `Engine::new`, `Builder::spawn`, and `started.recv()`, each with its error as text.
pub record Threads (Engine : Type 0) : Type 0 where
  pub new_engine : Config → Result String Engine
  pub spawn : Engine → Result String (Unit {0})
  pub recv : Engine → Result String (Unit {0})

-- `ENGINE`, and the engines whose epoch a thread increments.
pub record Process (Engine : Type 0) : Type 0 where
  pub engine : Option (Result String Engine)
  pub clocks : List Engine

module _ {Engine : Type 0} (threads : Threads Engine) where
  open threads use {new_engine, spawn, recv}

  abbrev pub with_engine : Engine → Result String (Unit {0}) → Result String Engine
  with_engine engine (ok _) = ok engine
  with_engine engine (err e) = err e

  -- The closure of `get_or_init`: the engine, and the thread of its clock, once that runs.
  unfoldable pub create : Bool → List Engine → List Engine × Result String Engine
  unfolding config
  create isolated clocks = elim (new_engine (config isolated)) [
    | err e ↦ (clocks, err e)
    | ok engine ↦ elim (spawn engine) [
      | err e ↦ (clocks, err e)
      | ok _ ↦ (engine ∷ clocks, with_engine engine (recv engine))
    ]
  ]

  unfoldable pub initialize_engine : Bool → Process Engine → Process Engine × Result Anyhow Engine
  unfolding create
  initialize_engine isolated p = elim p.engine [
    | some engine ↦ (p, map_err (λ e. message e) engine)
    | none ↦
        let (clocks, engine) = create isolated p.clocks in
        (record { engine = some engine; clocks = clocks }, map_err (λ e. message e) engine)
  ]
