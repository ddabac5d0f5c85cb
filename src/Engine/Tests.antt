-- ===== src/Engine/Tests.antt =====
-- A process with its engine, and a plugin of four bytes.
use javex.Base.{
  ℕ, ◌≡◌, ◌≤◌, ◌↔◌, refl, true, false, none, some, List, [], ◌∷◌, All, String, Anyhow, message,
  Result, ok, err, map_err,
}
use javex.Cache.{empty}
use javex.Engine.{Config, config, Threads, create, initialize_engine}
use javex.Engine.Once.{calls, IsTicking, calls_once}
use javex.Engine.Runtime.{custom_section, other_payload, Parsers, Runtime, build_runtime}
use javex.Engine.Runtime.Laws.{IsLoaded, build_runtime_iff}

abbrev threads : Threads Config
threads = record { new_engine = λ c. ok c; spawn = λ e. ok tt; recv = λ e. ok tt }

calls_once_example :
    (engine : Result String Config) × (engine ≡ (create threads true []).1)
    × All
        (λ r. r ≡ map_err (λ e. message e) engine)
        (calls threads (true ∷ false ∷ []) (record { engine = none; clocks = [] })).1
    × IsTicking threads engine
        (calls threads (true ∷ false ∷ []) (record { engine = none; clocks = [] })).0.clocks
calls_once_example = calls_once threads true (false ∷ [])

-- Its second section names it.
abbrev parsers : Parsers Config ℕ
parsers = record {
  from_binary = λ e bytes. ok 7;
  parse_all =
      λ bytes. ok other_payload ∷ ok (custom_section "import_namespace" (106 ∷ 115 ∷ [])) ∷ [];
}

abbrev runtime : Runtime Config ℕ ℕ
runtime = record {
  engine = config false;
  plugin = 7;
  namespace = 106 ∷ 115 ∷ [];
  cache = empty (record { max_cache_bytes = 0; max_cached_modules = 0 });
}

build_runtime_iff_example :
    ((build_runtime threads parsers
        (0 ∷ 97 ∷ 115 ∷ 109 ∷ [])
        (record { max_cache_bytes = 0; max_cached_modules = 0 })
        (record { engine = none; clocks = [] })).1
      ≡ ok runtime)
    ↔ IsLoaded threads parsers
        (0 ∷ 97 ∷ 115 ∷ 109 ∷ [])
        (record { max_cache_bytes = 0; max_cached_modules = 0 })
        (initialize_engine threads false (record { engine = none; clocks = [] })).1
        runtime
build_runtime_iff_example =
    build_runtime_iff threads parsers (0 ∷ 97 ∷ 115 ∷ 109 ∷ [])
      (record { max_cache_bytes = 0; max_cached_modules = 0 })
      (record { engine = none; clocks = [] }) runtime

built :
    (build_runtime threads parsers
      (0 ∷ 97 ∷ 115 ∷ 109 ∷ [])
      (record { max_cache_bytes = 0; max_cached_modules = 0 })
      (record { engine = none; clocks = [] })).1
    ≡ ok runtime
unfolding build_runtime initialize_engine javex.Base.from_utf8
built = refl
