-- ===== src/Nif/Tests.antt =====
-- A conversation with an execution that has no bridge, and so is done at once.
use javex.Base.{ℕ, suc, ◌≡◌, refl, false, none, some, List, [], ◌∷◌, message, trapped, ok, err, leb}
use javex.Output.{default}
use javex.Output
use javex.Sandbox.{World, Text}
use javex.Execution.{Provider}
use javex.Execution.Advance.{StateJson, advance}
use javex.Nif.{bad_arg, replied_ok, Slot, binary, settle, advance_slot}
use javex.Nif.Conversation.{Talks, converse, converse-Talks}

abbrev text : Text
text = record {
  format = λ e. elim e [ message m ↦ m | trapped _ ↦ "wasm trap" ];
  display = λ e. elim e [ message m ↦ m | trapped _ ↦ "error" ];
  lossy = λ b. "TypeError";
}

abbrev json : StateJson
json = record { Value = List ℕ; from_slice = λ b. ok b; is_true = λ v k. false }

abbrev provider : Provider (World ℕ ℕ ℕ ℕ)
provider = record {
  Memory = Unit {0};
  Realloc = Unit {0};
  Step = Unit {0};
  call_realloc = λ f a b c d w. (w, ok 200);
  call_step = λ f a b w. (w, ok 100);
  write_memory = λ m at bytes w. (w, ok tt);
  read_memory = λ m at count w. (w, ok []);
}

abbrev world : World ℕ ℕ ℕ ℕ
world = record {
  guest = 0;
  limiter = record { limits = 0; memory_bytes = 0; max_memory = 65_536; exceeded = false };
  heap = record { cell = λ p. default; next = 2 };
  flags = record { cell = λ p. false; next = 1 };
  now = 500;
  cache = record {
    entries = [];
    bytes = 0;
    hits = 0;
    limits = record { max_cache_bytes = 0; max_cached_modules = 0 };
  };
}

abbrev slot : Slot provider
slot = record {
  execution = some (record {
    sandbox = record {
      stdout = record { capacity = 5; state = 0 };
      stderr = record { capacity = 5; state = 1 };
      control = record { deadline = 1000; cancelled = 0 };
    };
    bridge = none;
    max_step = 4;
    max_completion = 2;
    max_diagnostic = 5;
  });
  is_locked = false;
}

abbrev calls : List (List ℕ × (World ℕ ℕ ℕ ℕ → World ℕ ℕ ℕ ℕ))
calls = ([], λ w. record w { now = suc w.now }) ∷ ([], λ w. w) ∷ []

twice :
    converse (λ n. leb n 100) text json calls slot world ≡ (ok (replied_ok []) ∷ err bad_arg ∷ [])
unfolding converse advance_slot settle binary advance Output.contents
twice = refl

converse-Talks_example : Talks (converse (λ n. leb n 100) text json calls slot world)
converse-Talks_example = converse-Talks (λ n. leb n 100) text json calls slot world
