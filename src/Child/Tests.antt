-- ===== src/Child/Tests.antt =====
-- A call that is served: its provider goes on for ever, and stdin has one completion.
use javex.Base.{
  ℕ, zero, suc, ◌≡◌, refl, sym, ap, ◌∙◌, true, false, some, List, [], ◌∷◌, into_bytes, message,
  trapped, ok, err, length, arith, ok-injective,
}
use javex.Output.{default}
use javex.Ipc.{Json, Pipe}
use javex.Sandbox.{World, Text}
use javex.Execution.{Provider, Bridge, Execution}
use javex.Execution.Advance.{StateJson}
use javex.Execution.Advance.Laws.{ReadsWhole}
use javex.Child.{serve}
use javex.Child.Loop.{Serves, serve-Serves}

abbrev text : Text
text = record {
  format = λ e. elim e [ message m ↦ m | trapped _ ↦ "wasm trap" ];
  display = λ e. elim e [ message m ↦ m | trapped _ ↦ "error" ];
  lossy = λ b. "TypeError";
}

abbrev kinds : Json
kinds = record { to_vec = into_bytes; from_slice = λ b. err (message "invalid JSON") }

-- A state of as many zeros as are asked for.
abbrev zeros : ℕ → List ℕ
zeros zero = []
zeros (suc n) = 0 ∷ zeros n

length-zeros : (n : ℕ) → length (zeros n) ≡ n
length-zeros zero = refl
length-zeros (suc n) = omega (arith, length-zeros n)

abbrev provider : Provider (World ℕ ℕ ℕ ℕ)
provider = record {
  Memory = Unit {0};
  Realloc = Unit {0};
  Step = Unit {0};
  call_realloc = λ f a b c d w. (w, ok 200);
  call_step = λ f a b w. (record w { now = suc w.now }, ok 100);
  write_memory = λ m at bytes w. (w, ok tt);
  read_memory = λ m at count w. (w, ok (zeros count));
}

provider-ReadsWhole : ReadsWhole provider
provider-ReadsWhole m at count w w' bytes e =
    ap length (sym (ok-injective (ap (λ r. r.1) e))) ∙ length-zeros count

abbrev json : StateJson
json = record { Value = List ℕ; from_slice = λ b. ok b; is_true = λ v k. false }

abbrev world : World ℕ ℕ ℕ ℕ
world = record {
  guest = 0;
  limiter = record { limits = 0; memory_bytes = 0; max_memory = 65_536; exceeded = false };
  heap = record { cell = λ p. default; next = 2 };
  flags = record { cell = λ p. false; next = 1 };
  now = 500;
  cache = record {
    entries = [];
    bytes = 0;
    hits = 0;
    limits = record { max_cache_bytes = 0; max_cached_modules = 0 };
  };
}

abbrev bridge : Bridge provider
bridge = record { memory = tt; realloc = tt; step = tt }

abbrev execution : Execution provider
execution = record {
  sandbox = record {
    stdout = record { capacity = 5; state = 0 };
    stderr = record { capacity = 5; state = 1 };
    control = record { deadline = 1000; cancelled = 0 };
  };
  bridge = some bridge;
  max_step = 4;
  max_completion = 2;
  max_diagnostic = 5;
}

-- A frame with a completion of two bytes.
abbrev stdin : List ℕ
stdin = 0 ∷ 0 ∷ 0 ∷ 2 ∷ 91 ∷ 93 ∷ []

abbrev pipe : Pipe
pipe = record { bytes = []; is_open = true }

serve-Serves_example :
    Serves text kinds json execution pipe
      (serve text kinds json execution 7 (91 ∷ 93 ∷ []) world stdin pipe)
serve-Serves_example =
    serve-Serves text kinds json execution bridge refl provider-ReadsWhole 7 (91 ∷ 93 ∷ []) world
      stdin pipe (omega arith)
