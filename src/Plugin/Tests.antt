-- ===== src/Plugin/Tests.antt =====
-- Runs of the provider, in a QuickJS whose context counts the jobs that are left: the root settles
-- once there are none.
use javex.Base.{
  ℕ, zero, suc, ◌≡◌, ◌⊎◌, ◌≤◌, ◌<◌, ◌≢◌, ◌+◌, ◌↔◌, refl, inl, inr, true, false, none, some, List,
  [], ◌∷◌, message, ok, err, length, into_bytes, ◌==◌, if◌then◌else◌, arith, Anyhow, Result, Option,
  u32_mod, from_utf8,
}
use javex.Output.{default}
use javex.Execution.{Execution}
use javex.Execution.Advance.{StateJson, verdict, fetch, exchange}
use javex.Plugin.{Ends, returns, panics}
use javex.Plugin.Memory.{Bytes, read, write, copy_nonoverlapping, to_le_bytes}
use javex.Plugin.Realloc.{Allocator, is_layout, free_block, move_block, realloc}
use javex.Plugin.Memory.Laws.{write-outside}
use javex.Plugin.Realloc.Laws.{IsApart, IsAllocator}
use javex.Plugin.Settle.{QuickJs, settle}
use javex.Plugin.Settle.Relation.{Settles, settled, runs, settle_iff}
use javex.Plugin.Step.{Places, Instance, answer, invoke, configure, step}
use javex.Plugin.Step.Life.{IsCalm, invoke-step-IsCalm}
use javex.Plugin.Step.Says.{spoken, Says, Stands}
use javex.Plugin.Step.Ended.{step-Stands}
use javex.Plugin.Step.Output.{IsPlaced}
use javex.Plugin.Step.Host.{
  Embedding, Guest, There, called, moved, fetch_bytes, store_bytes, plugin_provider,
}
use javex.Plugin.Step.Host.Heard.{Heard, exchange-Heard}

abbrev js : QuickJs
js = record {
  Context = ℕ;
  Promise = Unit {0};
  Function = Unit {0};
  Error = Unit {0};
  compile_to_bytecode = λ ctx source. (ctx, ok source);
  eval_module = λ ctx code. (2, ok tt);
  eval_bridge = λ ctx calls concurrent input. (ctx, ok tt);
  call_bridge = λ ctx f completions mode. (ctx, ok (if mode == 0 then [] else 123 ∷ 125 ∷ []));
  result = λ ctx root. if ctx == 0 then some (ok tt) else none;
  execute_pending_job = λ ctx. elim ctx [ zero ↦ (zero, false) | suc n ↦ (n, true) ];
  from_js_error = λ ctx e. message "rejected";
}

abbrev places : Places
places = record {
  Heap = Unit {0};
  record_at = 8;
  place = λ h m n. (tt, m, 100);
  display = λ e. "rejected";
}

places-IsPlaced : IsPlaced places
places-IsPlaced = record { small = λ h m n. omega arith; apart = λ h m n. inr (omega arith) }

abbrev json : StateJson
json = record {
  Value = List ℕ;
  from_slice = λ b. if length b == 0 then err (message "EOF while parsing a value") else ok b;
  is_true = λ v k. false;
}

-- The completions lie at 40: two bytes, of an empty list.
abbrev memory : Bytes
memory = λ at. if at == 40 then 91 else if at == 41 then 93 else 0

abbrev instance_ : Instance js places json
instance_ = record { context = 0; root = none; bridge = none; memory = memory; heap = tt }

abbrev ready : Instance js places json
ready = record { context = 2; root = some tt; bridge = some tt; memory = memory; heap = tt }

-- It gives out one block after the other, each behind a byte of its own, and writes to what it takes back.
abbrev allocator : Allocator
allocator = record {
  State = ℕ;
  alloc = λ (s, m) size align. ((s + 1 + size, write m s (7 ∷ [])), s + 1);
  dealloc = λ (s, m) p size align. (s, write m p (0 ∷ []));
}

documented : IsAllocator allocator
documented = record {
  Live = λ s p n. (1 ≤ n) × (p + n ≤ s);
  alloc_kept = λ s m size align q count live. (
    (live.0, omega (arith, live.1)),
    λ a low high. write-outside m s (7 ∷ []) a (inl (omega (arith, high, live.1))),
  );
  alloc_apart = λ s m size align q count some_size live found. inl (omega (arith, live.1));
  alloc_live = λ s m size align some_size found. (positive size some_size, omega arith);
  dealloc_kept = λ s m ptr old align q count mine live apart. (
    live,
    λ a low high.
        write-outside m ptr (0 ∷ []) a (elsewhere ptr old q count a mine.0 low high apart),
  );
}
  where
    positive : (n : ℕ) → n ≢ 0 → 1 ≤ n
    positive zero some_size = absurd (some_size refl)
    positive (suc n) some_size = omega arith

    elsewhere :
        (ptr old q count a : ℕ)
        → 1 ≤ old
        → q ≤ a
        → a < q + count
        → IsApart q count ptr old
        → (a < ptr) ⊎ (ptr + 1 ≤ a)
    elsewhere ptr old q count a some_old low high (inl before) = inl (omega (arith, high, before))
    elsewhere ptr old q count a some_old low high (inr after) =
        inr (omega (arith, low, after, some_old))

-- A block of three bytes at 40 gets room for five, at 101, and is freed.
abbrev after_move : ℕ × Bytes
after_move = (106, write (copy_nonoverlapping (write memory 100 (7 ∷ [])) 40 101 3) 40 (0 ∷ []))

settle_iff_example :
    ((n : ℕ) × (settle js tt n 2 ≡ some (0, some (ok tt)))) ↔ Settles js tt 2 0 (some (ok tt))
settle_iff_example = settle_iff js tt 2 0 (some (ok tt))

-- Two jobs, and the root is settled.
abbrev two_jobs : Settles js tt 2 0 (some (ok tt))
two_jobs = runs 2 refl refl (runs 1 refl refl (settled 0 (ok tt) refl))

step-Stands_example :
    (e : Ends (Instance js places json) ℕ) × (step js places json 3 40 2 ready ≡ some e)
    × Stands js places json ready 40 2 e
step-Stands_example =
    step-Stands js places json ready 40 2 3
      (λ bridge root known rooted. (0, some (ok tt), two_jobs, omega arith)) places-IsPlaced

abbrev ended : Ends (Instance js places json) ℕ
ended = answer js places json (record ready { context = 0 }) (ok (123 ∷ 125 ∷ []))

invoke-step-IsCalm_example : IsCalm js places json ready 40 2 ended
unfolding configure invoke step javex.Base.from_utf8 settle read
invoke-step-IsCalm_example =
    invoke-step-IsCalm js places json 1 1 1 40 2 3 40 2 instance_
      (record instance_ { bridge = some tt }) ready ended places-IsPlaced refl refl refl

-- A bridge whose state is no JSON.
abbrev garbling : QuickJs
garbling = record js { call_bridge = λ ctx f completions mode. (ctx, ok []) }

abbrev ready_garbling : Instance garbling places json
ready_garbling = record {
  context = 2;
  root = some tt;
  bridge = some tt;
  memory = memory;
  heap = tt;
}

panics_garbled : step garbling places json 3 40 2 ready_garbling ≡ some panics
unfolding step javex.Base.from_utf8 settle read
panics_garbled = refl

abbrev embedding : Embedding
embedding = record {
  js = js;
  places = places;
  json = json;
  alloc = λ h size align. (h, 300);
  dealloc = λ h p size align. h;
  memory_size = 65_536;
  jobs = 3;
  Limits = ℕ;
  Key = ℕ;
  Compiled = ℕ;
}

abbrev execution : Execution (plugin_provider embedding)
execution = record {
  sandbox = record {
    stdout = record { capacity = 5; state = 0 };
    stderr = record { capacity = 5; state = 1 };
    control = record { deadline = 1000; cancelled = 0 };
  };
  bridge = some (record { memory = tt; realloc = tt; step = tt });
  max_step = 4;
  max_completion = 2;
  max_diagnostic = 5;
}

abbrev there : There embedding
there = record {
  guest = ready;
  limiter = record { limits = 0; memory_bytes = 0; max_memory = 65_536; exceeded = false };
  heap = record { cell = λ p. default; next = 2 };
  flags = record { cell = λ p. false; next = 1 };
  now = 500;
  cache = record {
    entries = [];
    bytes = 0;
    hits = 0;
    limits = record { max_cache_bytes = 0; max_cached_modules = 0 };
  };
}

abbrev exchanged : There embedding × Result Anyhow (ℕ × List ℕ)
exchanged =
    exchange execution (record { memory = tt; realloc = tt; step = tt }) (91 ∷ 93 ∷ []) 2 there

exchange-Heard_example :
    (told : Result Anyhow (List ℕ)) × (before after : Guest embedding) × (ptr at : ℕ) × (read
        before.memory ptr 2
      ≡ 91 ∷ 93 ∷ [])
    × (step js places json 3 ptr 2 before ≡ some (returns after at))
    × Says js places json before ptr 2 told
    × ((u32_mod ≤ length (spoken places told).1) ⊎ Heard embedding 4 5 told (0, 123 ∷ 125 ∷ []))
unfolding exchange fetch verdict javex.Base.from_utf8 realloc move_block free_block is_layout step
    fetch_bytes store_bytes called moved read write settle to_le_bytes
exchange-Heard_example =
    exchange-Heard embedding execution (record { memory = tt; realloc = tt; step = tt })
      (91 ∷ 93 ∷ []) 2 there exchanged.0 (0, 123 ∷ 125 ∷ []) places-IsPlaced refl
