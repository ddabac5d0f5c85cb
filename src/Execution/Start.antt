-- ===== src/Execution/Start.antt =====
-- `Execution::start` of native/javex_nif/src/sandbox.rs. The linker and the guest's functions are
-- parameters.
pub mod Harmless
pub mod Cached
pub mod Limits
pub mod Fixtures
mod Tests
use mathlib.Core.Option
use javex.Base.{
  ℕ, Bool, true, false, not, Option, none, some, List, [], ◌∷◌, String, Anyhow, message, Failure,
  length, ltb, if◌then◌else◌, Result, ok, err, map_err, ok_or,
}
use javex.Output.{Heap}
use javex.Control.{Control, Flags, check}
use javex.Cache.{Cache, Panic}
use javex.Budgets.{Budgets, callback_request_limit, callback_completion_limit}
use javex.Sandbox.{World, Text, Sandbox, finish}
use javex.Sandbox.Create.{Builders, Store, new}
use javex.Execution.{Act, proceed, ◌>>=◌, ◌>>◌, lift, Provider, Bridge, Execution, check_control}
use javex.Execution.Load.{Loader, load_module}

-- What a call leaves when it ends, and what the next one begins with.
pub record Host (K M : Type 0) : Type 0 where
  pub heap : Heap
  pub flags : Flags
  pub now : ℕ
  pub cache : Cache K M

-- The linker with what it instantiates, and the exports of an instance.
pub record Linking (W M : Type 0) (p : Provider W) : Type 1 where
  pub Linker : Type 0
  pub Instance : Type 0
  pub Configure : Type 0
  pub Start : Type 0
  pub plugin : M
  pub namespace : List ℕ
  pub new_linker : Result Anyhow Linker
  pub instantiate : Linker → M → Act W Instance
  pub define : Linker → List ℕ → Instance → Act W Linker
  pub has_step : Instance → W → Bool
  pub configure_func : Instance → Act W Configure
  pub call_configure : Configure → ℕ → ℕ → ℕ → Act W (Unit {0})
  pub start_func : Instance → Act W Start
  pub call_start : Start → Act W (Unit {0})
  pub get_memory : Instance → W → Option p.Memory
  pub realloc_func : Instance → Act W p.Realloc
  pub step_func : Instance → Act W p.Step

-- `Option::unwrap_or`
abbrev pub unwrap_or : {A : Type 0} → Option A → A → A
unwrap_or none a = a
unwrap_or (some b) a = b

module _ {W M : Type 0} {p : Provider W} (linking : Linking W M p) where
  open linking use {Linker, Instance}

  -- The provider of a dynamic module is instantiated first, and linked under its namespace.
  unfoldable pub link_plugin : Bool → Linker → Act W (Linker × Option Instance)
  link_plugin true linker = lift (ok (linker, none))
  link_plugin false linker = do
    plugin ← linking.instantiate linker linking.plugin
    linker' ← linking.define linker linking.namespace plugin
    lift (ok (linker', some plugin))

  unfoldable pub configure : Bool → Instance → Budgets → Act W (Unit {0})
  configure false provider opts = lift (ok tt)
  configure true provider opts = do
    f ← linking.configure_func provider
    linking.call_configure f opts.max_callback_calls opts.max_callback_concurrency
        opts.max_callback_input

  -- The closure of `start`, once there is a module and the control was checked again.
  unfoldable pub launch : Budgets → M → Act W (Option Instance)
  unfolding link_plugin configure
  launch opts compiled = do
    linker ← lift linking.new_linker
    (linker', plugin) ← link_plugin opts.static_mode linker
    instance_ ← linking.instantiate linker' compiled
    let provider = unwrap_or plugin instance_
    resumable ← λ w. (w, ok (linking.has_step provider w))
    configure resumable provider opts
    start ← linking.start_func instance_
    linking.call_start start
    lift (ok (if resumable then some provider else none))

  -- The functions through which `advance` calls the provider.
  unfoldable pub find_bridge : Option Instance → Act W (Option (Bridge p))
  find_bridge none = lift (ok none)
  find_bridge (some provider) = do
    memory ← λ w. (w, ok_or (linking.get_memory provider w) (message "provider has no memory"))
    realloc ← linking.realloc_func provider
    step ← linking.step_func provider
    lift (ok (some (record { memory = memory; realloc = realloc; step = step })))

-- What wasmtime keeps for a call, and the world of the call with it.
abbrev pub enter : {G L K M : Type 0} → Store G L → Heap → Host K M → World G L K M
enter store heap host = record {
  guest = store.guest;
  limiter = store.limiter;
  heap = heap;
  flags = host.flags;
  now = host.now;
  cache = host.cache;
}

abbrev pub leave : {G L K M : Type 0} → World G L K M → Host K M
leave w = record { heap = w.heap; flags = w.flags; now = w.now; cache = w.cache }

abbrev pub with_store :
    {G L K M E : Type 0} → World G L K M → Result Failure E → Result Failure (E × Store G L)
with_store w (err f) = err f
with_store w (ok e) = ok (e, record { guest = w.guest; limiter = w.limiter })

module _ (builders : Builders) {K M : Type 0} (loader : Loader builders.Guest builders.Limits K M)
    {p : Provider (World builders.Guest builders.Limits K M)}
    (linking : Linking (World builders.Guest builders.Limits K M) M p) (text : Text) where
  abbrev pub Here : Type 0
  Here = World builders.Guest builders.Limits K M

  -- The closure of `start`.
  unfoldable pub execute :
      Budgets
      → Control
      → List ℕ
      → Here
      → Result Panic (Here × Result Anyhow (Option linking.Instance))
  execute opts control wasm w = elim (check control w.flags w.now) [
    | err e ↦ ok (w, err e)
    | ok _ ↦ elim (load_module loader wasm w) [
      | err panic ↦ err panic
      | ok loaded ↦ ok (proceed loaded (λ m. check_control control >> launch linking opts m))
    ]
  ]

  abbrev pub attach :
      Budgets → Sandbox → Result Anyhow (Option (Bridge p)) → Result Failure (Execution p)
  attach opts sandbox (err e) = err ("trap", text.display e)
  attach opts sandbox (ok bridge) = ok (record {
    sandbox = sandbox;
    bridge = bridge;
    max_step = callback_request_limit opts;
    max_completion = callback_completion_limit opts;
    max_diagnostic = opts.max_stderr;
  })

  -- The end of `start`, from `finish` on.
  unfoldable pub assemble :
      Budgets
      → Sandbox
      → Here × Result Anyhow (Option linking.Instance)
      → Here × Result Failure (Execution p)
  assemble opts sandbox (w, result) = elim (finish text sandbox w result) [
    | err f ↦ (w, err f)
    | ok provider ↦
        let (w', bridge) = find_bridge linking provider w in (w', attach opts sandbox bridge)
  ]

  -- `start`, once the sandbox exists.
  unfoldable pub begin :
      Budgets
      → Control
      → List ℕ
      → Sandbox
      → Here
      → Result Panic (Here × Result Failure (Execution p))
  unfolding execute assemble
  begin opts control wasm sandbox w = elim (execute opts control wasm w) [
    | err panic ↦ err panic
    | ok executed ↦ ok (assemble opts sandbox executed)
  ]

  unfoldable pub start :
      List ℕ
      → List ℕ
      → Budgets
      → Control
      → Host K M
      → Result Panic
          (Host K M × Result Failure (Execution p × Store builders.Guest builders.Limits))
  unfolding begin
  start wasm input opts control host =
      if ltb opts.max_input (length input)
      then ok (host, err ("input_limit", "input limit exceeded"))
      else if ltb opts.max_module (length wasm)
      then ok (host, err ("module_limit", "Wasm module limit exceeded"))
      else elim (new builders input opts control host.flags host.now host.heap) [
        | err e ↦ ok (host, err ("trap", text.display e))
        | ok (sandbox, store, heap) ↦
            elim (begin opts control wasm sandbox (enter store heap host)) [
              | err panic ↦ err panic
              | ok (w, result) ↦ ok (leave w, with_store w result)
            ]
      ]
