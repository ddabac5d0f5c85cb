-- ===== src/Plugin/Bridge/Tests.antt =====
-- Runs of native/javex_plugin/src/bridge.js: one script's calls, with at most three calls and two at once.
use javex.Base.{◌≡◌, refl, true, false, some, List, [], ◌∷◌}
use javex.Plugin.Bridge.{
  text, Call, call, no_calls, calls, Bridge, new_bridge, run, complete, report, run_all, Event,
  calls_host, completes, reports, happen, history, send,
}
use javex.Plugin.Bridge.Numbers.{IsNumbered, history-IsNumbered, history-fatal}

abbrev add : Call
add = call (some (97 ∷ [])) no_calls (text (49 ∷ []))

-- Code of the guest calls `add` while the argument is turned into JSON.
abbrev nested : Call
nested =
    call (some (97 ∷ []))
      (calls (call (some (97 ∷ [])) (calls add no_calls) (text (49 ∷ []))) no_calls)
      (text (49 ∷ []))

abbrev one_script : List Event
one_script =
    calls_host add ∷ calls_host add ∷ reports false ∷ completes (1 ∷ []) ∷ calls_host add ∷ []

abbrev ended : Bridge
ended = record {
  pending = 3 ∷ 2 ∷ [];
  requests = record { id = 3; name = 97 ∷ []; argument = 49 ∷ [] } ∷ [];
  count = 3;
  fatal = false;
}

runs : history 3 2 8 one_script new_bridge ≡ ended
unfolding history happen run run_all send complete report
runs = refl

abbrev crowded : Bridge
crowded = history 3 2 8 (calls_host nested ∷ []) new_bridge

-- Three wait where two may, and no quota is reported as exceeded.
nests : (crowded.pending ≡ 1 ∷ 2 ∷ 3 ∷ []) × (crowded.fatal ≡ false)
unfolding history happen run run_all send
nests = (refl, refl)

history-IsNumbered_example : IsNumbered (history 3 2 8 (calls_host nested ∷ one_script) new_bridge)
history-IsNumbered_example =
    history-IsNumbered 3 2 8 (calls_host nested ∷ one_script) new_bridge
      (record { given = tt; once = tt })

abbrev exceeded : Bridge
exceeded = record { pending = []; requests = []; count = 4; fatal = true }

history-fatal_example : (report true (history 3 2 8 one_script exceeded)).1.fatal ≡ true
history-fatal_example = history-fatal 3 2 8 one_script exceeded true refl
