-- ===== src/Compiler/Compile.antt =====
-- `compile` of native/javex_nif/src/compiler.rs, from its source to a module.
pub mod Kept
pub mod Compiled
pub mod Fixtures
mod Tests
use javex.Base.{
  ℕ, ◌≡◌, Bool, true, false, Option, none, some, List, [], ◌∷◌, Anyhow, message, length, leb,
  Result, ok, err, if◌then◌else◌, ensure,
}
use javex.Budgets.{Budgets}
use javex.Control.{Control, Flags, check}
use javex.Sandbox.{Text, Sandbox, World, finish}
use javex.Sandbox.Create.{Builders, Store, new}
use javex.Execution
use javex.Execution.Start.{Host, enter, leave}
use javex.Engine.{Threads, Process}
use javex.Engine.Runtime.{Parsers, Runtime, build_runtime}
use javex.Compiler.{acquire, release, Provider, cached_runtime, provider}
use javex.Compiler.Source.{Compiling, check_source, compile_source}
use javex.Compiler.Wrapper.Assemble.{Walrus, wrapper}

-- What the compiler is made of: wasmtime with a runtime of a plugin, SHA-256, walrus, and what goes
-- on meanwhile, as time passes and the call may be cancelled. `K` and `M` are those of the caches of
-- other runtimes, which no compilation uses.
pub record Toolchain (H Engine K M : Type 0) : Type 1 where
  pub builders : Builders
  pub dec : Discrete H
  pub digest : List ℕ → H
  pub threads : Threads Engine
  pub parsers : Parsers Engine M
  pub guest : Execution.Provider (World builders.Guest builders.Limits K M)
  pub compiling : Runtime Engine K M → Compiling (World builders.Guest builders.Limits K M) guest
  pub walrus : Walrus
  pub text : Text
  pub meanwhile : Flags → ℕ → Flags × ℕ

-- What compilations share: the host, `PROVIDER`, and `COMPILING`.
pub record Shared (H Engine K M : Type 0) : Type 0 where
  pub host : Host K M
  pub process : Process Engine
  pub kept : Option (Provider H (Runtime Engine K M))
  pub count : ℕ

module _ {H Engine K M : Type 0} (tools : Toolchain H Engine K M) where
  open tools use {
    builders, dec, digest, threads, parsers, guest, compiling, walrus, text, meanwhile,
  }

  abbrev pub Here : Type 0
  Here = World builders.Guest builders.Limits K M

  abbrev pub Plugin : Type 0
  Plugin = Runtime Engine K M

  -- `build_runtime` for a plugin, without a cache of modules.
  unfoldable pub build : Process Engine → List ℕ → Result Anyhow Plugin
  build process bytes =
      (build_runtime threads parsers bytes (record { max_cache_bytes = 0; max_cached_modules = 0 })
        process).1

  -- It is called for a plugin that is not the one that is kept.
  unfoldable pub process_after : List ℕ → Shared H Engine K M → Process Engine
  process_after plugin s =
      elim (cached_runtime dec digest (build s.process) (digest plugin) s.kept) [
        | some _ ↦ s.process
        | none ↦
            (build_runtime {K = K} threads parsers plugin
              (record { max_cache_bytes = 0; max_cached_modules = 0 }) s.process).0
      ]

  abbrev pub wait : Host K M → Host K M
  wait host =
      let (flags, now) = meanwhile host.flags host.now in record host { flags = flags; now = now }

  -- The last two checks: of the size of the module, and of the control.
  unfoldable pub check_module : Budgets → Control → Host K M → List ℕ → Result Anyhow (List ℕ)
  check_module opts control host wasm =
      if leb (length wasm) opts.max_module
      then elim (check control host.flags host.now) [ err e ↦ err e | ok _ ↦ ok wasm ]
      else err (message "Wasm module limit exceeded")

  -- From the wrapper on.
  unfoldable pub wrap_up :
      List ℕ
      → Bool
      → Budgets
      → Control
      → Plugin
      → List ℕ
      → Host K M
      → Host K M × Result Anyhow (List ℕ)
  unfolding check_module
  wrap_up plugin static_mode opts control runtime bytecode host =
      elim (wrapper walrus plugin runtime.namespace bytecode static_mode) [
        | err e ↦ (wait host, err e)
        | ok wasm ↦ (wait host, check_module opts control (wait host) wasm)
      ]

  -- What the closure left, from `finish` on.
  unfoldable pub conclude :
      List ℕ
      → Bool
      → Budgets
      → Control
      → Plugin
      → Sandbox
      → Here × Result Anyhow (List ℕ)
      → Host K M × Result Anyhow (List ℕ)
  unfolding wrap_up
  conclude plugin static_mode opts control runtime sandbox (w, result) =
      elim (finish text sandbox w result) [
        | err (kind, said) ↦ (leave w, err (message said))
        | ok bytecode ↦ elim (check control w.flags w.now) [
          | err e ↦ (leave w, err e)
          | ok _ ↦ wrap_up plugin static_mode opts control runtime bytecode (leave w)
        ]
      ]

  -- From `Sandbox::new` on.
  unfoldable pub compile_with :
      List ℕ
      → List ℕ
      → Bool
      → Budgets
      → Control
      → Plugin
      → Host K M
      → Host K M × Result Anyhow (List ℕ)
  unfolding conclude
  compile_with plugin source static_mode opts control runtime host =
      elim (new builders [] opts control host.flags host.now host.heap) [
        | err e ↦ (host, err e)
        | ok (sandbox, store, heap) ↦
            conclude plugin static_mode opts control runtime sandbox
              (compile_source (compiling runtime) text opts source (enter store heap host))
      ]

  -- With a permit: from `control.check()?` on.
  unfoldable pub compile_permitted :
      List ℕ
      → List ℕ
      → Bool
      → Budgets
      → Control
      → Shared H Engine K M
      → Shared H Engine K M × Result Anyhow (List ℕ)
  unfolding compile_with process_after build
  compile_permitted plugin source static_mode opts control s =
      elim (check control s.host.flags s.host.now) [
        | err e ↦ (s, err e)
        | ok _ ↦
            let (kept, got) = provider dec digest (build s.process) plugin s.kept in
            let s' = record s {
              host = wait s.host;
              process = process_after plugin s;
              kept = kept;
            } in
            elim got [
              | err e ↦ (s', err e)
              | ok runtime ↦
                  let (host, result) =
                    compile_with plugin source static_mode opts control runtime s'.host in
                  (record s' { host = host }, result)
            ]
      ]

  -- `CompilerPermit` is dropped when the function returns.
  abbrev pub drop_permit :
      Shared H Engine K M × Result Anyhow (List ℕ) → Shared H Engine K M × Result Anyhow (List ℕ)
  drop_permit (s, result) = (record s { count = release s.count }, result)

  unfoldable pub compile :
      List ℕ
      → List ℕ
      → Bool
      → Budgets
      → Control
      → Shared H Engine K M
      → Shared H Engine K M × Result Anyhow (List ℕ)
  unfolding compile_permitted
  compile plugin source static_mode opts control s = elim (check_source opts source) [
    | err e ↦ (s, err e)
    | ok _ ↦ elim (acquire s.count) [
      | none ↦ (s, err (message "compiler busy"))
      | some count ↦
          drop_permit
            (compile_permitted plugin source static_mode opts control (record s { count = count }))
    ]
  ]
