-- ===== src/Compiler/Compile/Compiled.antt =====
-- What a compilation that succeeds has made (`compile` of native/javex_nif/src/compiler.rs).
use javex.Base.{
  ℕ, ◌≤◌, ◌<◌, ◌≡◌, refl, ap, ◌∙◌, subst, Bool, false, Option-cases, inl, inr, List, [], Anyhow,
  Result, Result-cases, ok, err, arith, length, leb, leb→le, from_utf8, Bool-cases,
}
use javex.Budgets.{Budgets}
use javex.Output.{Heap}
use javex.Control.{Control, check}
use javex.Control.Laws.{check_iff}
use javex.Sandbox.{Sandbox, finish}
use javex.Sandbox.Finish.{finish-ok_iff}
use javex.Sandbox.Create.{Store, new}
use javex.Execution.Start.{Host, enter, leave}
use javex.Execution.Advance.Laws.{ReadsWhole}
use javex.Engine.{Process}
use javex.Compiler.{acquire, provider}
use javex.Compiler.Cached.{IsBuilt, IsFaithful, Provides, provider-IsFaithful}
use javex.Compiler.Source.{check_source, compile_source}
use javex.Compiler.Source.Bounds.{compile_source_bound}
use javex.Compiler.Source.Given.{IsGiven, compile_source-IsGiven}
use javex.Compiler.Wrapper.Assemble.{wrapper}
use javex.Compiler.Compile.{
  build, process_after, Plugin, Toolchain, Shared, Here, wait, check_module, wrap_up, conclude,
  compile_with, compile_permitted, drop_permit, compile,
}

module _ {H Engine K M : Type 0} (tools : Toolchain H Engine K M) (plugin source : List ℕ)
    (static_mode : Bool) (opts : Budgets) (control : Control) where
  open tools use {builders, dec, digest, guest, compiling, walrus, text}

  -- In a new sandbox, with the budget and the control of this call, the provider of the runtime gave the
  -- bytecode for the source.
  pub record IsBytecode (runtime : Plugin tools) (bytecode : List ℕ) : Type 0 where
    pub before : Host K M
    pub sandbox : Sandbox
    pub store : Store builders.Guest builders.Limits
    pub heap : Heap
    pub after : Here tools
    pub created :
        new builders [] opts control before.flags before.now before.heap ≡ ok (sandbox, store, heap)
    pub given :
        IsGiven (compiling runtime) text opts source (enter store heap before) after bytecode

  -- The module is the bytecode that the runtime gave, wrapped for the provider, both within the budget,
  -- and the call was neither cancelled nor late when it was done.
  pub record IsMade (runtime : Plugin tools) (host : Host K M) (wasm : List ℕ) : Type 0 where
    pub bytecode : List ℕ
    pub gave : IsBytecode runtime bytecode
    pub bytecode_bound : length bytecode ≤ opts.max_module
    pub wrapped : wrapper walrus plugin runtime.namespace bytecode static_mode ≡ ok wasm
    pub wasm_bound : length wasm ≤ opts.max_module
    pub alive : host.flags.cell control.cancelled ≡ false
    pub on_time : host.now < control.deadline

  -- The source was within the budget and well-formed, there was a permit, and the runtime is one of the
  -- plugin.
  pub record IsCompiled (s : Shared H Engine K M) (host : Host K M) (wasm : List ℕ) : Type 0 where
    pub source_bound : length source ≤ opts.max_input
    pub source_utf8 : from_utf8 source ≡ ok tt
    pub permit : s.count < 16
    pub runtime : Plugin tools
    pub built : IsBuilt dec digest (build tools s.process) (digest plugin) runtime
    pub made : IsMade runtime host wasm

  Makes : Plugin tools → Host K M × Result Anyhow (List ℕ) → Type 0
  Makes runtime (host, err e) = Unit {0}
  Makes runtime (host, ok wasm) = IsMade runtime host wasm

  wrap_up-Makes :
      (runtime : Plugin tools) (bytecode : List ℕ) (host : Host K M)
      → length bytecode ≤ opts.max_module
      → IsBytecode runtime bytecode
      → Makes runtime (wrap_up tools plugin static_mode opts control runtime bytecode host)
  unfolding wrap_up check_module Makes
  wrap_up-Makes runtime bytecode host bound gave =
      elim (Result-cases (wrapper walrus plugin runtime.namespace bytecode static_mode)) [
        | inr (e, failed) ↦ rw (wrap_up, failed) tt
        | inl (wasm, built) ↦ elim (Bool-cases (leb (length wasm) opts.max_module)) [
          | inr long ↦ rw (wrap_up, built, check_module, long) tt
          | inl fits ↦
              elim (Result-cases (check control (wait tools host).flags (wait tools host).now)) [
                | inr (e, stopped) ↦ rw (wrap_up, built, check_module, fits, stopped) tt
                | inl (tt, good) ↦
                    let (alive, on_time) =
                      (check_iff control (wait tools host).flags (wait tools host).now).0 good in
                    rw (wrap_up, built, check_module, fits, good)
                      (record {
                        bytecode = bytecode;
                        gave = gave;
                        bytecode_bound = bound;
                        wrapped = built;
                        wasm_bound = leb→le (length wasm) opts.max_module fits;
                        alive = alive;
                        on_time = on_time;
                      })
              ]
        ]
      ]

  module _ (whole : ReadsWhole guest) where
    conclude-Makes :
        (runtime : Plugin tools) (sandbox : Sandbox) (store : Store builders.Guest builders.Limits)
        (heap : Heap) (host : Host K M) (w' : Here tools) (result : Result Anyhow (List ℕ))
        → new builders [] opts control host.flags host.now host.heap ≡ ok (sandbox, store, heap)
        → compile_source (compiling runtime) text opts source (enter store heap host) ≡ (w', result)
        → Makes runtime
            (conclude tools plugin static_mode opts control runtime sandbox (w', result))
    unfolding conclude Makes
    conclude-Makes runtime sandbox store heap host w' result created ran =
        elim (Result-cases (finish text sandbox w' result)) [
          | inr (f, failed) ↦ rw (conclude, failed) tt
          | inl (bytecode, good) ↦ elim (Result-cases (check control w'.flags w'.now)) [
            | inr (e, stopped) ↦ rw (conclude, good, stopped) tt
            | inl (_, goes_on) ↦
                let value : result ≡ ok bytecode =
                  ((finish-ok_iff text sandbox w' result bytecode).0 good).1 in
                let gave = ran ∙ ap (λ r. (w', r)) value in
                rw (conclude, good, goes_on)
                  (wrap_up-Makes runtime bytecode (leave w')
                    (compile_source_bound (compiling runtime) text opts whole source
                      (enter store heap host) w' bytecode gave)
                    (record {
                      before = host;
                      sandbox = sandbox;
                      store = store;
                      heap = heap;
                      after = w';
                      created = created;
                      given =
                          compile_source-IsGiven (compiling runtime) text opts source
                            (enter store heap host) w' bytecode gave;
                    }))
          ]
        ]

    compile_with-Makes :
        (runtime : Plugin tools) (host : Host K M)
        → Makes runtime (compile_with tools plugin source static_mode opts control runtime host)
    unfolding compile_with Makes
    compile_with-Makes runtime host =
        elim (Result-cases (new builders [] opts control host.flags host.now host.heap)) [
          | inr (e, failed) ↦ rw (compile_with, failed) tt
          | inl ((sandbox, store, heap), created) ↦
              rw (compile_with, created)
                (conclude-Makes runtime sandbox store heap host
                  (compile_source (compiling runtime) text opts source (enter store heap host)).0
                  (compile_source (compiling runtime) text opts source (enter store heap host)).1
                  created refl)
        ]

    -- A runtime of the plugin has made what comes out.
    Permits : Process Engine → Shared H Engine K M × Result Anyhow (List ℕ) → Type 0
    Permits process (s, err e) = Unit {0}
    Permits process (s, ok wasm) =
        (runtime : Plugin tools) × IsBuilt dec digest (build tools process) (digest plugin) runtime
        × IsMade runtime s.host wasm

    Compiles : Shared H Engine K M → Shared H Engine K M × Result Anyhow (List ℕ) → Type 0
    Compiles s (s', err e) = Unit {0}
    Compiles s (s', ok wasm) = IsCompiled s s'.host wasm

    permit_of :
        (process : Process Engine) (s' : Shared H Engine K M) (runtime : Plugin tools)
        (r : Host K M × Result Anyhow (List ℕ))
        → IsBuilt dec digest (build tools process) (digest plugin) runtime
        → Makes runtime r
        → Permits process (record s' { host = r.0 }, r.1)
    unfolding Makes Permits
    permit_of process s' runtime (host, err e) built made = tt
    permit_of process s' runtime (host, ok wasm) built made = (runtime, built, made)

    permitted-Permits :
        (s : Shared H Engine K M)
        → IsFaithful dec digest (build tools s.process) s.kept
        → Permits s.process (compile_permitted tools plugin source static_mode opts control s)
    unfolding compile_permitted Permits
    permitted-Permits s faithful = elim (Result-cases (check control s.host.flags s.host.now)) [
      | inr (e, stopped) ↦ rw (compile_permitted, stopped) tt
      | inl (_, goes_on) ↦
          elim (Result-cases (provider dec digest (build tools s.process) plugin s.kept).1) [
            | inr (e, failed) ↦ rw (compile_permitted, goes_on, failed) tt
            | inl (runtime, got) ↦
                let built : IsBuilt dec digest (build tools s.process) (digest plugin) runtime =
                  subst (Provides dec digest (build tools s.process) plugin) got
                    (provider-IsFaithful dec digest (build tools s.process) plugin s.kept
                      faithful).1 in
                rw (compile_permitted, goes_on, got)
                  (permit_of s.process
                    (record s {
                      host = wait tools s.host;
                      process = process_after tools plugin s;
                      kept = (provider dec digest (build tools s.process) plugin s.kept).0;
                    })
                    runtime
                    (compile_with tools plugin source static_mode opts control runtime
                      (wait tools s.host))
                    built (compile_with-Makes runtime (wait tools s.host)))
          ]
    ]

    dropped :
        (s : Shared H Engine K M) (r : Shared H Engine K M × Result Anyhow (List ℕ))
        → check_source opts source ≡ ok tt
        → s.count < 16
        → Permits s.process r
        → Compiles s (drop_permit tools r)
    unfolding Permits Compiles check_source
    dropped s (s', err e) good few p = tt
    dropped s (s', ok wasm) good few (runtime, built, made) = record {
      source_bound = ground (arith, good);
      source_utf8 = ground (arith, good);
      permit = few;
      runtime = runtime;
      built = built;
      made = made;
    }

    compile-Compiles :
        (s : Shared H Engine K M)
        → IsFaithful dec digest (build tools s.process) s.kept
        → Compiles s (compile tools plugin source static_mode opts control s)
    unfolding compile acquire Compiles
    compile-Compiles s faithful = elim (Result-cases (check_source opts source)) [
      | inr (e, refused) ↦ rw (compile, refused) tt
      | inl (tt, good) ↦ elim (Option-cases (acquire s.count)) [
        | inl busy ↦ rw (compile, good, busy) tt
        | inr (count, got) ↦
            rw (compile, good, got)
              (dropped s
                (compile_permitted tools plugin source static_mode opts control
                  (record s { count = count }))
                good (ground (arith, got))
                (permitted-Permits (record s { count = count }) faithful))
      ]
    ]

    -- If reads of the memory are whole, a compilation that succeeds had a source within the budget that is
    -- UTF-8, and a permit; a runtime that was built from a plugin of the same hash was
    -- given the source in a new sandbox, and called to compile it, and answered with bytecode within the
    -- budget; what comes out is the wrapper of this bytecode, is within the budget too, and was done
    -- before the deadline and before any cancellation.
    pub compile-IsCompiled :
        (s s' : Shared H Engine K M) (wasm : List ℕ)
        → IsFaithful dec digest (build tools s.process) s.kept
        → compile tools plugin source static_mode opts control s ≡ (s', ok wasm)
        → IsCompiled s s'.host wasm
    unfolding Compiles
    compile-IsCompiled s s' wasm faithful h = subst (Compiles s) h (compile-Compiles s faithful)
