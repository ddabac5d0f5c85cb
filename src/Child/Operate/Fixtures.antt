-- ===== src/Child/Operate/Fixtures.antt =====
-- A child that is asked to run a module: its provider has a state of zeros, and stdin has one completion.
use javex.Base.{
  ℕ, zero, suc, ◌≡◌, refl, sym, ap, ◌∙◌, true, false, none, some, List, [], ◌∷◌, into_bytes,
  message, ok, err, length, arith, ok-injective, ℕ_discrete,
}
use javex.Output.{default}
use javex.Budgets.{Budgets}
use javex.Ipc.{Pipe, Parts}
use javex.Sandbox.{World}
use javex.Sandbox.Create.{Builders}
use javex.Engine.{Config}
use javex.Engine.Runtime.{custom_section, Runtime}
use javex.Execution.{Provider}
use javex.Execution.Advance.Laws.{ReadsWhole}
use javex.Execution.Load.{Loader}
use javex.Execution.Start.{Linking}
use javex.Compiler.Source.{Compiling}
use javex.Compiler.Wrapper.Assemble.{Walrus}
use javex.Compiler.Compile.{Toolchain, Shared}
use javex.Child.Operate.{Backend}

abbrev pub Here : Type 0
Here = World ℕ ℕ ℕ ℕ

abbrev pub Plugin : Type 0
Plugin = Runtime Config ℕ ℕ

abbrev pub zeros : ℕ → List ℕ
zeros zero = []
zeros (suc n) = 0 ∷ zeros n

pub length-zeros : (n : ℕ) → length (zeros n) ≡ n
length-zeros zero = refl
length-zeros (suc n) = omega (arith, length-zeros n)

abbrev pub provider : Provider Here
provider = record {
  Memory = Unit {0};
  Realloc = Unit {0};
  Step = Unit {0};
  call_realloc = λ f a b c d w. (w, ok 200);
  call_step = λ f a b w. (record w { now = suc w.now }, ok 100);
  write_memory = λ m at bytes w. (w, ok tt);
  read_memory = λ m at count w. (w, ok (zeros count));
}

pub provider-ReadsWhole : ReadsWhole provider
provider-ReadsWhole m at count w w' bytes e =
    ap length (sym (ok-injective (ap (λ r. r.1) e))) ∙ length-zeros count

abbrev pub builders : Builders
builders = record {
  Limits = ℕ;
  Guest = ℕ;
  build_limits = λ m t. m;
  build_store = λ i e o d. 0;
  set_fuel = λ g fuel. ok fuel;
}

abbrev pub walrus : Walrus
walrus = record {
  Module = Unit {0};
  Func = Unit {0};
  Memory = Unit {0};
  Data = Unit {0};
  Local = Unit {0};
  Signature = Unit {0};
  parse = λ bytes. ok tt;
  with_config = tt;
  exports = λ m. [];
  get_func = λ m name_. ok tt;
  delete_export = λ m id. tt;
  add_type = λ m params results. (tt, tt);
  add_import_func = λ m namespace_ name_ t. (tt, tt);
  add_import_memory = λ m namespace_ name_ pages. (tt, tt);
  add_passive = λ m bytes. (tt, tt);
  add_local = λ m. (tt, tt);
  finish_function = λ m realloc invoke memory_ data_ ptr code. (tt, tt);
  add_export = λ m name_ f. tt;
  emit_wasm = λ m. 0 ∷ 97 ∷ 115 ∷ 109 ∷ [];
}

abbrev pub compiling : Compiling Here provider
compiling = record {
  Linker = Unit {0};
  Instance = Unit {0};
  CompileSrc = Unit {0};
  new_linker = ok tt;
  instantiate = λ l w. (w, ok tt);
  memory = λ i w. some tt;
  realloc_func = λ i w. (w, ok tt);
  compile_func = λ i w. (w, ok tt);
  call_compile = λ f a b w. (w, ok 100);
}

abbrev pub tools : Toolchain ℕ Config ℕ ℕ
tools = record {
  builders = builders;
  dec = ℕ_discrete;
  digest = λ bytes. length bytes;
  threads = record { new_engine = λ c. ok c; spawn = λ e. ok tt; recv = λ e. ok tt };
  parsers = record {
    from_binary = λ e bytes. ok 7;
    parse_all = λ bytes. ok (custom_section "import_namespace" (106 ∷ [])) ∷ [];
  };
  guest = provider;
  compiling = λ r. compiling;
  walrus = walrus;
  text = record { format = λ e. "error"; display = λ e. "error"; lossy = λ b. "TypeError" };
  meanwhile = λ flags now. (flags, suc now);
}

abbrev pub loader : Loader ℕ ℕ ℕ ℕ
loader = record {
  dec = ℕ_discrete;
  digest = λ wasm. length wasm;
  image_range = λ m. record { start = 0; stop = m };
  from_binary = λ wasm w. (record w { now = suc w.now }, ok (length wasm));
}

abbrev pub linking : Plugin → Linking Here ℕ provider
linking r = record {
  Linker = Unit {0};
  Instance = ℕ;
  Configure = Unit {0};
  Start = Unit {0};
  plugin = r.plugin;
  namespace = r.namespace;
  new_linker = ok tt;
  instantiate = λ l m w. (w, ok m);
  define = λ l n i w. (w, ok tt);
  has_step = λ i w. true;
  configure_func = λ i w. (w, ok tt);
  call_configure = λ f a b c w. (w, ok tt);
  start_func = λ i w. (w, ok tt);
  call_start = λ s w. (record w { now = suc w.now }, ok tt);
  get_memory = λ i w. some tt;
  realloc_func = λ i w. (w, ok tt);
  step_func = λ i w. (w, ok tt);
}

abbrev pub opts : Budgets
opts = record {
  fuel = 50;
  max_memory = 65_536;
  max_input = 10;
  max_output = 20;
  max_stderr = 30;
  max_module = 40;
  max_callback_calls = 1;
  max_callback_concurrency = 1;
  max_callback_input = 1;
  max_callback_output = 1;
  env = [];
  static_mode = false;
}

abbrev pub backend : Backend ℕ Config ℕ ℕ
backend = record {
  tools = tools;
  loader = loader;
  linking = linking;
  kinds = record { to_vec = into_bytes; from_slice = λ b. err (message "invalid JSON") };
  json = record { Value = List ℕ; from_slice = λ b. ok b; is_true = λ v k. false };
  header_of = λ header. ok (record { operation = "run"; limits = opts });
}

abbrev pub shared : Shared ℕ Config ℕ ℕ
shared = record {
  host = record {
    heap = record { cell = λ p. default; next = 0 };
    flags = record { cell = λ p. false; next = 0 };
    now = 500;
    cache = record {
      entries = [];
      bytes = 0;
      hits = 0;
      limits = record { max_cache_bytes = 0; max_cached_modules = 0 };
    };
  };
  process = record { engine = none; clocks = [] };
  kept = none;
  count = 0;
}

abbrev pub parts : Parts
parts = record { header = 123 ∷ 125 ∷ []; plugin = 0 ∷ []; compiled = 0 ∷ 97 ∷ []; input = 49 ∷ [] }

abbrev pub pipe : Pipe
pipe = record { bytes = []; is_open = true }
