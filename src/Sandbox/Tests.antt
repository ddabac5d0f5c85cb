-- ===== src/Sandbox/Tests.antt =====
-- Calls on concrete worlds, with builders whose store takes at most a hundred units of fuel.
use javex.Base.{
  ℕ, ◌<◌, ◌≡◌, ◌↔◌, refl, Bool, true, false, [], ◌∷◌, Anyhow, message, Trap, trapped, leb, ◌==◌,
  if◌then◌else◌, Result, ok, err, is_err, arith,
}
use javex.Output.{Output, Heap, State, default}
use javex.Output
use javex.Control.{Control, Flags, check}
use javex.Budgets.{Budgets}
use javex.Relay.{any_eq, failure_kinds}
use javex.Sandbox.{Sandbox, World, Text, explain, finish}
use javex.Sandbox.Finish.{IsClean, Report, finish-Report, finish-ok_iff, finish-known}
use javex.Sandbox.Create.{Builders, Store, is_valid_budget, new_limiter, build, new}
use javex.Sandbox.Create.Fresh.{IsFresh, is_err-new, new-IsFresh, finish-new, finish-new_other}

abbrev text : Text
text = record {
  format = λ e. elim e [ message m ↦ m | trapped _ ↦ "wasm trap" ];
  display = λ e. elim e [ message m ↦ m | trapped _ ↦ "error" ];
  lossy = λ b. elim b [ [] ↦ "" | _ ∷ _ ↦ "TypeError" ];
}

abbrev builders : Builders
builders = record {
  Limits = ℕ;
  Guest = ℕ;
  build_limits = λ m t. m;
  build_store = λ i e o d. 0;
  set_fuel = λ g fuel. if leb fuel 100 then ok fuel else err (message "no fuel");
}

abbrev opts : Budgets
opts = record {
  fuel = 50;
  max_memory = 65_536;
  max_input = 10;
  max_output = 20;
  max_stderr = 30;
  max_module = 40;
  max_callback_calls = 0;
  max_callback_concurrency = 0;
  max_callback_input = 0;
  max_callback_output = 0;
  env = [];
  static_mode = true;
}

abbrev flags : Flags
flags = record { cell = λ p. false; next = 1 }

abbrev control : Control
control = record { deadline = 1000; cancelled = 0 }

-- The first two streams of the heap are an older call's, with a diagnostic on stderr.
abbrev heap : Heap
heap = record {
  cell = λ p. if p == 1 then record { bytes = 84 ∷ []; exceeded = false } else default;
  next = 2;
}

abbrev older : Sandbox
older = record {
  stdout = record { capacity = 5; state = 0 };
  stderr = record { capacity = 5; state = 1 };
  control = control;
}

abbrev new_heap : Heap
new_heap = unfold Output.new Output.store in (Output.new 30 (Output.new 20 heap).1).1

abbrev world : World ℕ ℕ ℕ ℕ
world = record {
  guest = 0;
  limiter = record { limits = 0; memory_bytes = 0; max_memory = 65_536; exceeded = false };
  heap = heap;
  flags = flags;
  now = 500;
  cache = record {
    entries = [];
    bytes = 0;
    hits = 0;
    limits = record { max_cache_bytes = 0; max_cached_modules = 0 };
  };
}

abbrev fresh : Sandbox
fresh = record {
  stdout = record { capacity = 20; state = 2 };
  stderr = record { capacity = 30; state = 3 };
  control = control;
}

abbrev fresh_store : Store ℕ ℕ
fresh_store = record { guest = 50; limiter = new_limiter builders opts }

abbrev threw_up : Result Anyhow ℕ
threw_up = err (trapped Trap.unreachable_code_reached)

abbrev returned : Result Anyhow ℕ
returned = ok 7

created : new builders [] opts control flags 500 heap ≡ ok (fresh, fresh_store, new_heap)
unfolding new check build Output.new Output.store
created = refl

thrown : finish text older world threw_up ≡ err ("js_error", "TypeError")
unfolding finish explain Output.exceeded Output.contents
thrown = refl

late :
    finish text older (record world { now = 1000 }) returned
    ≡ err ("timeout", "execution timed out")
unfolding finish
late = refl

finish-Report_example : Report text older world threw_up (finish text older world threw_up)
finish-Report_example = finish-Report text older world threw_up

finish-ok_iff_example :
    (finish text older world returned ≡ ok 7) ↔ (IsClean text older world × (returned ≡ ok 7))
finish-ok_iff_example = finish-ok_iff text older world returned 7

finish-known_example : any_eq "js_error" failure_kinds ≡ true
finish-known_example = finish-known text older world threw_up thrown

is_err-new_example : (is_err (new builders [] opts control flags 500 heap) ≡ false) ↔ (
    (is_valid_budget opts ≡ true)
    × (◌≡◌ {A = Bool} false false)
    × (500 < 1000)
    × (◌≡◌ {A = Bool} (is_err {E = Anyhow} {A = ℕ} (ok 50)) false))
is_err-new_example = is_err-new builders [] opts control heap flags 500

new-IsFresh_example : IsFresh builders [] opts control heap fresh fresh_store new_heap
new-IsFresh_example =
    new-IsFresh builders [] opts control heap flags 500 fresh fresh_store new_heap created

finish-new_example :
    finish text fresh
      (record world { heap = new_heap; limiter = new_limiter builders opts })
      returned
    ≡ ok 7
finish-new_example =
    finish-new builders [] opts control heap flags 500 text fresh fresh_store
      (record world { heap = new_heap; limiter = new_limiter builders opts }) 7 created refl refl
      refl

finish-new_other_example :
    finish text older (record world { heap = new_heap }) threw_up ≡ finish text older world threw_up
finish-new_other_example =
    finish-new_other builders [] opts control heap flags 500 text fresh fresh_store new_heap older
      world threw_up created refl (omega arith) (omega arith)
