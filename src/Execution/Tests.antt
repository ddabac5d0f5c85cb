-- ===== src/Execution/Tests.antt =====
-- Steps of a concrete call, whose provider answers with a state of three bytes.
use javex.Base.{
  ℕ, zero, suc, ◌≡◌, refl, sym, ap, ◌∙◌, true, false, some, List, [], ◌∷◌, message, trapped, ok,
  is_err, length, ◌==◌, if◌then◌else◌, arith, ok-injective,
}
use javex.Output.{default}
use javex.Output
use javex.Control.{check}
use javex.Ipc.{try_from}
use javex.Sandbox.{World, Text, explain, finish}
use javex.Execution.{Provider, Bridge, Execution, pending}
use javex.Execution.Advance.{
  StateJson, verdict, fetch, exchange, step_once, progress, conclude, advance,
}
use javex.Execution.Advance.Laws.{ReadsWhole, Answers, advance-Answers}
use javex.Execution.Advance.Refused.{advance_refused}

abbrev text : Text
text = record {
  format = λ e. elim e [ message m ↦ m | trapped _ ↦ "wasm trap" ];
  display = λ e. elim e [ message m ↦ m | trapped _ ↦ "error" ];
  lossy = λ b. "TypeError";
}

-- Exactly so many bytes, with zeros after those that are known.
abbrev pad : ℕ → List ℕ → List ℕ
pad zero bytes = []
pad (suc n) [] = 0 ∷ pad n []
pad (suc n) (b ∷ bytes) = b ∷ pad n bytes

length-pad : (n : ℕ) (bytes : List ℕ) → length (pad n bytes) ≡ n
length-pad zero bytes = refl
length-pad (suc n) [] = omega (arith, length-pad n [])
length-pad (suc n) (b ∷ bytes) = omega (arith, length-pad n bytes)

-- The record at 100: the tag of a state, which lies at 16 and has three bytes.
abbrev cells : ℕ → List ℕ
cells at = if at == 100 then 0 ∷ 0 ∷ 0 ∷ 0 ∷ 16 ∷ 0 ∷ 0 ∷ 0 ∷ 3 ∷ [] else 7 ∷ 8 ∷ 9 ∷ []

abbrev provider : Provider (World ℕ ℕ ℕ ℕ)
provider = record {
  Memory = Unit {0};
  Realloc = Unit {0};
  Step = Unit {0};
  call_realloc = λ f a b c d w. (w, ok 200);
  call_step = λ f a b w. (record w { now = suc w.now }, ok 100);
  write_memory = λ m at bytes w. (w, ok tt);
  read_memory = λ m at count w. (w, ok (pad count (cells at)));
}

provider-ReadsWhole : ReadsWhole provider
provider-ReadsWhole m at count w w' bytes e =
    ap length (sym (ok-injective (ap (λ r. r.1) e))) ∙ length-pad count (cells at)

abbrev json : StateJson
json = record { Value = List ℕ; from_slice = λ b. ok b; is_true = λ v k. false }

abbrev world : World ℕ ℕ ℕ ℕ
world = record {
  guest = 0;
  limiter = record { limits = 0; memory_bytes = 0; max_memory = 65_536; exceeded = false };
  heap = record { cell = λ p. default; next = 2 };
  flags = record { cell = λ p. false; next = 1 };
  now = 500;
  cache = record {
    entries = [];
    bytes = 0;
    hits = 0;
    limits = record { max_cache_bytes = 0; max_cached_modules = 0 };
  };
}

abbrev bridge : Bridge provider
bridge = record { memory = tt; realloc = tt; step = tt }

abbrev execution : Execution provider
execution = record {
  sandbox = record {
    stdout = record { capacity = 5; state = 0 };
    stderr = record { capacity = 5; state = 1 };
    control = record { deadline = 1000; cancelled = 0 };
  };
  bridge = some bridge;
  max_step = 4;
  max_completion = 2;
  max_diagnostic = 5;
}

goes_on :
    advance text json execution (91 ∷ 93 ∷ []) world
    ≡ (record world { now = 501 }, ok (pending (7 ∷ 8 ∷ 9 ∷ [])))
unfolding advance conclude progress step_once exchange fetch verdict finish explain check try_from
    Output.exceeded Output.contents
goes_on = refl

advance-Answers_example :
    Answers text json execution
      (advance text json execution (91 ∷ 93 ∷ []) world).0
      (advance text json execution (91 ∷ 93 ∷ []) world).1
advance-Answers_example =
    advance-Answers text json execution bridge (91 ∷ 93 ∷ []) world provider-ReadsWhole refl

advance_refused_example :
    ((advance text json execution (1 ∷ 2 ∷ 3 ∷ []) world).0 ≡ world)
    × (is_err (advance text json execution (1 ∷ 2 ∷ 3 ∷ []) world).1 ≡ true)
advance_refused_example =
    advance_refused text json execution bridge (1 ∷ 2 ∷ 3 ∷ []) world refl (omega arith)
