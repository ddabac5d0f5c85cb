-- ===== src/Compiler/Compile/Fixtures.antt =====
-- A plugin, a walrus and a provider to try a compilation on.
use javex.Base.{
  ℕ, zero, suc, ◌≡◌, refl, subst, ap, false, none, some, List, [], ◌∷◌, ◌++◌, Anyhow, Result, ok,
  err, length, ℕ_discrete, arith, sym, ok-injective, ◌∙◌,
}
use javex.Budgets.{Budgets}
use javex.Output.{default}
use javex.Control.{Control}
use javex.Sandbox.{World}
use javex.Engine.Runtime.{custom_section}
use javex.Execution
use javex.Execution.Advance.Laws.{ReadsWhole}
use javex.Compiler.Source.{Compiling}
use javex.Compiler.Wrapper.Assemble.{Export, function, memory, Import, Walrus}
use javex.Compiler.Wrapper.Assemble.Exports.{without, IsDistinct}
use javex.Compiler.Wrapper.Assemble.Documented.{IsDocumented}
use javex.Compiler.Compile.{Toolchain, Shared}

-- A module is what it exports and imports.
abbrev pub Parts : Type 0
Parts = List (Export ℕ ℕ) × List Import

-- The plugin's start function is 3, and its memory 0.
abbrev pub plugin_exports : List (Export ℕ ℕ)
plugin_exports =
    record { id = 0; name = "_start"; item = function 3 }
    ∷ record { id = 1; name = "memory"; item = memory 0 }
    ∷ []

abbrev pub walrus : Walrus
walrus = record {
  Module = Parts;
  Func = ℕ;
  Memory = ℕ;
  Data = Unit {0};
  Local = Unit {0};
  Signature = Unit {0};
  parse = λ bytes. ok (plugin_exports, []);
  with_config = ([], []);
  exports = λ m. m.0;
  get_func = λ m name_. ok 5;
  delete_export = λ m id. (without id m.0, m.1);
  add_type = λ m params results. (m, tt);
  add_import_func = λ m namespace_ name_ t. ((m.0, m.1 ++ (namespace_, name_) ∷ []), 1);
  add_import_memory = λ m namespace_ name_ pages. ((m.0, m.1 ++ (namespace_, name_) ∷ []), 0);
  add_passive = λ m bytes. (m, tt);
  add_local = λ m. (m, tt);
  finish_function = λ m realloc invoke memory_ data_ ptr code. (m, 9);
  add_export = λ m name_ f. (m.0 ++ record { id = 4; name = name_; item = function f } ∷ [], m.1);
  emit_wasm = λ m. 0 ∷ 97 ∷ 115 ∷ 109 ∷ [];
}

abbrev pub DistinctIn : Result Anyhow Parts → Type 0
DistinctIn (ok m) = IsDistinct m.0
DistinctIn (err e) = Unit {0}

abbrev pub documented : IsDocumented walrus
documented = record {
  imports = λ m. m.1;
  parsed = λ plugin m h. subst DistinctIn h ((refl, tt), (refl, tt), (tt, tt, tt));
  empty = (refl, refl);
  deletes = λ m id. (refl, refl);
  types = λ m params results. (refl, refl);
  import_funcs = λ m namespace_ name_ t. (refl, refl);
  import_memories = λ m namespace_ name_ pages. (refl, refl);
  passives = λ m bytes. (refl, refl);
  locals = λ m. (refl, refl);
  functions = λ m realloc invoke memory_ data_ ptr code. (refl, refl);
  export_id = λ m. 4;
  adds = λ m name_ f. (refl, refl);
}

abbrev pub Here : Type 0
Here = World ℕ ℕ ℕ ℕ

abbrev pub zeros : ℕ → List ℕ
zeros zero = []
zeros (suc n) = 0 ∷ zeros n

pub length-zeros : (n : ℕ) → length (zeros n) ≡ n
length-zeros zero = refl
length-zeros (suc n) = omega (arith, length-zeros n)

abbrev pub guest : Execution.Provider Here
guest = record {
  Memory = Unit {0};
  Realloc = Unit {0};
  Step = Unit {0};
  call_realloc = λ f a b c d w. (w, ok 200);
  call_step = λ f a b w. (w, ok 0);
  write_memory = λ m at bytes w. (w, ok tt);
  read_memory = λ m at count w. (w, ok (zeros count));
}

pub guest-ReadsWhole : ReadsWhole guest
guest-ReadsWhole m at count w w' bytes e =
    ap length (sym (ok-injective (ap (λ r. r.1) e))) ∙ length-zeros count

abbrev pub compiling : Compiling Here guest
compiling = record {
  Linker = Unit {0};
  Instance = Unit {0};
  CompileSrc = Unit {0};
  new_linker = ok tt;
  instantiate = λ l w. (w, ok tt);
  memory = λ i w. some tt;
  realloc_func = λ i w. (w, ok tt);
  compile_func = λ i w. (w, ok tt);
  call_compile = λ f a b w. (record w { now = suc w.now }, ok 100);
}

abbrev pub tools : Toolchain ℕ ℕ ℕ ℕ
tools = record {
  builders = record {
    Limits = ℕ;
    Guest = ℕ;
    build_limits = λ a b. a;
    build_store = λ input env stdout stderr. 0;
    set_fuel = λ g fuel. ok fuel;
  };
  dec = ℕ_discrete;
  digest = λ bytes. length bytes;
  threads = record { new_engine = λ c. ok 1; spawn = λ e. ok tt; recv = λ e. ok tt };
  parsers = record {
    from_binary = λ e bytes. ok 7;
    parse_all = λ bytes. ok (custom_section "import_namespace" (106 ∷ 115 ∷ [])) ∷ [];
  };
  guest = guest;
  compiling = λ r. compiling;
  walrus = walrus;
  text = record { format = λ e. "error"; display = λ e. "error"; lossy = λ b. "SyntaxError" };
  meanwhile = λ flags now. (flags, suc now);
}

abbrev pub opts : Budgets
opts = record {
  fuel = 50;
  max_memory = 65_536;
  max_input = 10;
  max_output = 20;
  max_stderr = 30;
  max_module = 40;
  max_callback_calls = 1;
  max_callback_concurrency = 1;
  max_callback_input = 1;
  max_callback_output = 1;
  env = [];
  static_mode = false;
}

abbrev pub control : Control
control = record { deadline = 1000; cancelled = 0 }

abbrev pub shared : Shared ℕ ℕ ℕ ℕ
shared = record {
  host = record {
    heap = record { cell = λ p. default; next = 0 };
    flags = record { cell = λ p. false; next = 1 };
    now = 500;
    cache = record {
      entries = [];
      bytes = 0;
      hits = 0;
      limits = record { max_cache_bytes = 0; max_cached_modules = 0 };
    };
  };
  process = record { engine = none; clocks = [] };
  kept = none;
  count = 15;
}
