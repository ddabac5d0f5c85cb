-- ===== src/Nif/Calls/Tests.antt =====
-- A compilation and a call, as Elixir asks for them.
use javex.Base.{ℕ, suc, ◌≡◌, ◌⊎◌, refl, Bool, false, true, List, [], ◌∷◌, ok, leb}
use javex.Output
use javex.Control.{check}
use javex.Sandbox.{finish}
use javex.Sandbox.Create.{new, build}
use javex.Execution.Advance.{StateJson}
use javex.Compiler.{acquire, provider, cached_runtime}
use javex.Compiler.Source.{check_source, compile_source, read_payload}
use javex.Compiler.Wrapper.{i32_len}
use javex.Compiler.Wrapper.Assemble.{wrapper}
use javex.Compiler.Compile.{compile}
use javex.Compiler.Compile.Compiled.{IsCompiled}
use javex.Compiler.Compile.Fixtures.{tools, guest-ReadsWhole, shared}
use javex.Compiler.Compile.Fixtures
use javex.Execution.Start.Fixtures.{builders, loader, linking, text, opts, control, host, wasm}
use javex.Nif.{binary}
use javex.Nif.Conversation.{Talks}
use javex.Nif.Calls.{dynamic, static_, encode_module, compile_nif, run_start}
use javex.Nif.Calls.Replies.{replies, run_start-Talks, compile_nif-IsCompiled}

abbrev json : StateJson
json = record { Value = List ℕ; from_slice = λ b. ok b; is_true = λ v k. false }

run_start-Talks_example : Talks (
    replies
      (λ n. leb n 100)
      builders
      loader
      linking
      text
      json
      (([], λ w. record w { now = suc w.now }) ∷ [])
      (run_start (λ n. leb n 100) builders loader linking text json wasm [] opts control host))
run_start-Talks_example =
    run_start-Talks (λ n. leb n 100) builders loader linking text json wasm [] opts control host
      (([], λ w. record w { now = suc w.now }) ∷ [])

abbrev digest : List ℕ
digest = 5 ∷ []

abbrev sent : List ℕ
sent = 0 ∷ 97 ∷ 115 ∷ 109 ∷ []

abbrev Sends : (static_mode : Bool) → Type 0
Sends static_mode =
    IsCompiled tools (7 ∷ 8 ∷ []) (49 ∷ []) static_mode Fixtures.opts Fixtures.control shared
      (compile_nif (λ n. leb n 100) tools (λ b. digest) (7 ∷ 8 ∷ []) (49 ∷ []) dynamic Fixtures.opts
        Fixtures.control shared).0.host
      sent

compile_nif-IsCompiled_example :
    ((dynamic ≡ dynamic) × (digest ≡ digest) × Sends false)
    ⊎ ((dynamic ≡ static_) × (digest ≡ []) × Sends true)
unfolding compile_nif encode_module binary compile wrapper i32_len javex.Base.from_utf8 check_source
    acquire check provider cached_runtime new build compile_source read_payload finish
    Output.exceeded Output.contents Output.new javex.Engine.Runtime.build_runtime
    javex.Engine.initialize_engine
compile_nif-IsCompiled_example =
    compile_nif-IsCompiled (λ n. leb n 100) tools (λ b. digest) (7 ∷ 8 ∷ []) (49 ∷ []) dynamic
      Fixtures.opts Fixtures.control shared
      (compile_nif (λ n. leb n 100) tools (λ b. digest) (7 ∷ 8 ∷ []) (49 ∷ []) dynamic Fixtures.opts
        Fixtures.control shared).0
      sent digest guest-ReadsWhole tt refl
