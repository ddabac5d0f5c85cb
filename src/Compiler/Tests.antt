-- ===== src/Compiler/Tests.antt =====
-- The compiler on concrete plugins and sources.
use javex.Base.{
  ℕ, zero, suc, ◌≤◌, ◌≡◌, refl, sym, ap, ◌∙◌, ℕ_discrete, false, Option, some, List, [], ◌∷◌,
  Anyhow, message, trapped, Result, ok, err, length, arith, ok-injective,
}
use javex.Budgets.{Budgets}
use javex.Sandbox.{Text}
use javex.Execution.{Act, lift}
use javex.Execution
use javex.Execution.Advance.Laws.{ReadsWhole}
use javex.Compiler.{acquire, release, Provider, provider}
use javex.Compiler.Permits.{
  Permits, acquires, releases, here, later, Counts, idle, idle-Reach-Counts,
}
use javex.Compiler.Cached.{IsFaithful, Provides, provider-IsFaithful}
use javex.Compiler.Source.{Compiling, read_payload, compile_source}
use javex.Compiler.Source.Bounds.{compile_source_bound}

-- A thread gets a permit and gives it back.
abbrev one : Permits
one = record { holders = 1; count = 1 }

got : acquire 0 ≡ some 1
unfolding acquire
got = refl

idle-Reach-Counts_example : Counts (record { holders = 0; count = release 1 })
idle-Reach-Counts_example =
    idle-Reach-Counts (record { holders = 0; count = release 1 })
      (later (later here (acquires idle 1 got)) (releases 0 1))

-- Plugins are hashed by their length; one of no bytes cannot be built.
abbrev build : List ℕ → Result Anyhow ℕ
build [] = err (message "no plugin")
build (b ∷ bs) = ok b

abbrev kept : Option (Provider ℕ ℕ)
kept = some (record { hash = 2; runtime = 5 })

provider-IsFaithful_example :
    IsFaithful ℕ_discrete
      (λ b. length b)
      build
      (provider ℕ_discrete (λ b. length b) build (7 ∷ []) kept).0
    × Provides ℕ_discrete
        (λ b. length b)
        build
        (7 ∷ [])
        (provider ℕ_discrete (λ b. length b) build (7 ∷ []) kept).1
provider-IsFaithful_example =
    provider-IsFaithful ℕ_discrete (λ b. length b) build (7 ∷ []) kept (5 ∷ 6 ∷ [], refl, refl)

abbrev text : Text
text = record {
  format = λ e. elim e [ message m ↦ m | trapped _ ↦ "wasm trap" ];
  display = λ e. elim e [ message m ↦ m | trapped _ ↦ "error" ];
  lossy = λ b. "SyntaxError";
}

-- A memory of zeros, so that the record names an empty payload of bytecode.
abbrev zeros : ℕ → List ℕ
zeros zero = []
zeros (suc n) = 0 ∷ zeros n

length-zeros : (n : ℕ) → length (zeros n) ≡ n
length-zeros zero = refl
length-zeros (suc n) = omega (arith, length-zeros n)

abbrev guest : Execution.Provider ℕ
guest = record {
  Memory = Unit {0};
  Realloc = Unit {0};
  Step = Unit {0};
  call_realloc = λ f a b c d w. (w, ok 200);
  call_step = λ f a b w. (w, ok 0);
  write_memory = λ m at bytes w. (suc w, ok tt);
  read_memory = λ m at count w. (w, ok (zeros count));
}

guest-ReadsWhole : ReadsWhole guest
guest-ReadsWhole m at count w w' bytes e =
    ap length (sym (ok-injective (ap (λ r. r.1) e))) ∙ length-zeros count

abbrev compiling : Compiling ℕ guest
compiling = record {
  Linker = Unit {0};
  Instance = Unit {0};
  CompileSrc = Unit {0};
  new_linker = ok tt;
  instantiate = λ l w. (w, ok tt);
  memory = λ i w. some tt;
  realloc_func = λ i w. (w, ok tt);
  compile_func = λ i w. (w, ok tt);
  call_compile = λ f a b w. (suc w, ok 100);
}

abbrev opts : Budgets
opts = record {
  fuel = 50;
  max_memory = 65_536;
  max_input = 10;
  max_output = 20;
  max_stderr = 30;
  max_module = 40;
  max_callback_calls = 1;
  max_callback_concurrency = 1;
  max_callback_input = 1;
  max_callback_output = 1;
  env = [];
  static_mode = false;
}

compiled : compile_source compiling text opts (49 ∷ []) 0 ≡ (2, ok [])
unfolding compile_source read_payload
compiled = refl

compile_source_bound_example : length {A = ℕ} [] ≤ 40
compile_source_bound_example =
    compile_source_bound compiling text opts guest-ReadsWhole (49 ∷ []) 0 2 [] compiled

abbrev bump : ℕ → ℕ → ℕ → ℕ → ℕ
bump a b c d = 64
