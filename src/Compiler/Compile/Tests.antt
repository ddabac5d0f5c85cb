-- ===== src/Compiler/Compile/Tests.antt =====
-- A compilation of the source `1` for a plugin of two bytes.
use javex.Base.{
  ℕ, zero, suc, ◌≡◌, ◌≤◌, refl, subst, ap, true, false, none, some, List, [], ◌∷◌, ◌++◌, String,
  str_eq, Anyhow, message, trapped, Result, ok, err, length, ℕ_discrete, ◌==◌, if◌then◌else◌, inl,
  inr, arith, append-nil, sym, ok-injective, ◌∙◌,
}
use javex.Output.{default}
use javex.Output
use javex.Control.{check}
use javex.Sandbox.{finish}
use javex.Sandbox.Create.{new, build}
use javex.Compiler.{acquire, provider, cached_runtime}
use javex.Compiler.Source.{check_source, compile_source, read_payload}
use javex.Compiler.Wrapper.{i32_len}
use javex.Compiler.Wrapper.Assemble.{function, memory, wrapper}
use javex.Compiler.Wrapper.Assemble.Exports.{entries, named}
use javex.Compiler.Wrapper.Assemble.Start.{IsStart}
use javex.Compiler.Wrapper.Assemble.Modules.{IsImported, wrapper-dynamic, wrapper-static}
use javex.Compiler.Compile.{compile}
use javex.Compiler.Compile.Kept.{Faithful, compile_kept}
use javex.Compiler.Compile.Compiled.{IsCompiled, compile-IsCompiled}
use javex.Compiler.Compile.Fixtures.{
  Parts, walrus, documented, guest-ReadsWhole, tools, opts, control, shared,
}

wrapper-dynamic_example :
    (m : Parts) × (realloc invoke start : walrus.Func) × (memory_ : walrus.Memory)
    × (walrus.emit_wasm m ≡ 0 ∷ 97 ∷ 115 ∷ 109 ∷ [])
    × IsImported walrus documented (106 ∷ 115 ∷ []) "cabi_realloc" realloc
    × IsImported walrus documented (106 ∷ 115 ∷ []) "invoke" invoke
    × IsStart walrus realloc invoke start memory_ (7 ∷ [])
    × (m.1
        ≡ (106 ∷ 115 ∷ [], "cabi_realloc")
          ∷ (106 ∷ 115 ∷ [], "invoke")
          ∷ (106 ∷ 115 ∷ [], "memory")
          ∷ [])
    × (entries m.0 ≡ ("_start", function start) ∷ [])
unfolding wrapper i32_len
wrapper-dynamic_example =
    wrapper-dynamic walrus documented [] (7 ∷ []) (0 ∷ 97 ∷ 115 ∷ 109 ∷ []) (106 ∷ 115 ∷ []) refl

wrapper-static_example :
    (before m : Parts) × (realloc invoke start : walrus.Func) × (memory_ : walrus.Memory)
    × (walrus.parse [] ≡ ok before)
    × (walrus.emit_wasm m ≡ 0 ∷ 97 ∷ 115 ∷ 109 ∷ [])
    × (walrus.get_func before "cabi_realloc" ≡ ok realloc)
    × (walrus.get_func before "invoke" ≡ ok invoke)
    × (named "memory" before.0 ≡ memory memory_ ∷ [])
    × IsStart walrus realloc invoke start memory_ (7 ∷ [])
    × (named "_start" m.0 ≡ function start ∷ [])
    × ((n : String) → str_eq "_start" n ≡ false → named n m.0 ≡ named n before.0)
    × (m.1 ≡ before.1)
unfolding wrapper i32_len
wrapper-static_example =
    wrapper-static walrus documented [] (7 ∷ []) (0 ∷ 97 ∷ 115 ∷ 109 ∷ []) (106 ∷ 115 ∷ []) refl

compile_kept_example :
    ((compile tools (7 ∷ 8 ∷ []) (49 ∷ []) false opts control shared).0.count ≡ 15)
    × Faithful tools
        (7 ∷ 8 ∷ [])
        (49 ∷ [])
        false
        opts
        control
        (compile tools (7 ∷ 8 ∷ []) (49 ∷ []) false opts control shared).0
compile_kept_example = compile_kept tools (7 ∷ 8 ∷ []) (49 ∷ []) false opts control shared tt

compile-IsCompiled_example :
    IsCompiled tools
      (7 ∷ 8 ∷ [])
      (49 ∷ [])
      false
      opts
      control
      shared
      (compile tools (7 ∷ 8 ∷ []) (49 ∷ []) false opts control shared).0.host
      (0 ∷ 97 ∷ 115 ∷ 109 ∷ [])
unfolding compile wrapper i32_len javex.Base.from_utf8 check_source acquire check provider
    cached_runtime new build compile_source read_payload finish Output.exceeded Output.contents
    Output.new javex.Engine.Runtime.build_runtime javex.Engine.initialize_engine
compile-IsCompiled_example =
    compile-IsCompiled tools (7 ∷ 8 ∷ []) (49 ∷ []) false opts control guest-ReadsWhole shared
      (compile tools (7 ∷ 8 ∷ []) (49 ∷ []) false opts control shared).0 (0 ∷ 97 ∷ 115 ∷ 109 ∷ [])
      tt refl
