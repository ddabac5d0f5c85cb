-- ===== src/Execution/Start/Fixtures.antt =====
-- A host, a compiler that takes a module as it is, and a guest that asks for no callback.
use javex.Base.{
  ℕ, suc, false, some, List, [], ◌∷◌, message, trapped, ok, err, ◌==◌, leb, if◌then◌else◌, arith,
  length, ℕ_discrete,
}
use javex.Output.{default}
use javex.Control.{Control}
use javex.Cache.{empty}
use javex.Cache.Invariant.{IsValid, empty-IsValid}
use javex.Budgets.{Budgets}
use javex.Sandbox.{World, Text}
use javex.Sandbox.Create.{Builders}
use javex.Execution.{Provider}
use javex.Execution.Load.{Loader}
use javex.Execution.Start.{Host, Linking}

abbrev pub text : Text
text = record {
  format = λ e. elim e [ message m ↦ m | trapped _ ↦ "wasm trap" ];
  display = λ e. elim e [ message m ↦ m | trapped _ ↦ "error" ];
  lossy = λ b. "TypeError";
}

abbrev pub builders : Builders
builders = record {
  Limits = ℕ;
  Guest = ℕ;
  build_limits = λ m t. m;
  build_store = λ i e o d. 0;
  set_fuel = λ g fuel. if leb fuel 100 then ok fuel else err (message "no fuel");
}

abbrev pub loader : Loader ℕ ℕ ℕ ℕ
loader = record {
  dec = ℕ_discrete;
  digest = λ wasm. length wasm;
  image_range = λ m. record { start = 0; stop = m };
  from_binary = λ wasm w. (record w { now = suc w.now }, ok (length wasm));
}

abbrev pub provider : Provider (World ℕ ℕ ℕ ℕ)
provider = record {
  Memory = Unit {0};
  Realloc = Unit {0};
  Step = Unit {0};
  call_realloc = λ f a b c d w. (w, ok 200);
  call_step = λ f a b w. (w, ok 100);
  write_memory = λ m at bytes w. (w, ok tt);
  read_memory = λ m at count w. (w, ok []);
}

abbrev pub linking : Linking (World ℕ ℕ ℕ ℕ) ℕ provider
linking = record {
  Linker = Unit {0};
  Instance = ℕ;
  Configure = Unit {0};
  Start = Unit {0};
  plugin = 9;
  namespace = 106 ∷ [];
  new_linker = ok tt;
  instantiate = λ l m w. (w, ok m);
  define = λ l n i w. (w, ok tt);
  has_step = λ i w. i == 9;
  configure_func = λ i w. (w, ok tt);
  call_configure = λ f a b c w. (w, ok tt);
  start_func = λ i w. (w, ok tt);
  call_start = λ s w. (record w { now = suc w.now }, ok tt);
  get_memory = λ i w. some tt;
  realloc_func = λ i w. (w, ok tt);
  step_func = λ i w. (w, ok tt);
}

abbrev pub opts : Budgets
opts = record {
  fuel = 50;
  max_memory = 65_536;
  max_input = 10;
  max_output = 20;
  max_stderr = 30;
  max_module = 40;
  max_callback_calls = 1;
  max_callback_concurrency = 1;
  max_callback_input = 1;
  max_callback_output = 1;
  env = [];
  static_mode = false;
}

abbrev pub control : Control
control = record { deadline = 1000; cancelled = 0 }

abbrev pub host : Host ℕ ℕ
host = record {
  heap = record { cell = λ p. default; next = 0 };
  flags = record { cell = λ p. false; next = 1 };
  now = 500;
  cache = record {
    entries = [];
    bytes = 0;
    hits = 0;
    limits = record { max_cache_bytes = 10; max_cached_modules = 2 };
  };
}

abbrev pub wasm : List ℕ
wasm = 0 ∷ 97 ∷ 115 ∷ 109 ∷ []

pub host-IsValid : IsValid ℕ_discrete host.cache
unfolding empty
host-IsValid =
    empty-IsValid ℕ_discrete (record { max_cache_bytes = 10; max_cached_modules = 2 }) (omega arith)
