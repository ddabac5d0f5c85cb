-- ===== src/Plugin/Step/Says.antt =====
-- What a step of native/javex_plugin/src/lib.rs is to say, from what the bridge and the jobs of the script do.
use javex.Base.{
  ℕ, ◌≤◌, ◌≡◌, ◌⊎◌, Bool, true, false, Option, none, some, List, length, Anyhow, Result, ok, err,
  into_bytes, from_utf8, u32_mod,
}
use javex.Execution.Advance.{StateJson}
use javex.Plugin.{Ends, returns, panics, aborts}
use javex.Plugin.Memory.{read}
use javex.Plugin.Settle.{QuickJs}
use javex.Plugin.Settle.Relation.{Settles}
use javex.Plugin.Step.{Places, Instance}
use javex.Plugin.Step.Output.{Holds}

-- The tag and the payload of an answer.
abbrev pub spoken : Places → Result Anyhow (List ℕ) → ℕ × List ℕ
spoken places (ok state) = (0, state)
spoken places (err e) = (1, into_bytes (places.display e))

module _ (js : QuickJs) (places : Places) (json : StateJson) where
  open js use {Context, Promise, Function, Error}

  abbrev pub State : Type 0
  State = Instance js places json

  -- The bridge is asked in mode 2 once the root settled, and in mode 1 before.
  pub data Asks : Option (Result Error (Unit {0})) → ℕ → Type 0 where
    settled_root : (r : Result Error (Unit {0})) → Asks (some r) 2
    pending_root : Asks none 1

  -- What the host is told: the state, if a quota was exceeded, even if the root was rejected for it,
  -- and also if it was not rejected; else the error.
  pub data Tells (ctx : Context) (state : List ℕ) (fatal : Bool)
      : Option (Result Error (Unit {0})) → Result Anyhow (List ℕ) → Type 0 where
    exceeded :
        (outcome : Option (Result Error (Unit {0})))
        → fatal ≡ true
        → Tells ctx state fatal outcome (ok state)
    rejected :
        (e : Error)
        → fatal ≡ false
        → Tells ctx state fatal (some (err e)) (err (js.from_js_error ctx e))
    evaluated : fatal ≡ false → Tells ctx state fatal (some (ok tt)) (ok state)
    waiting : fatal ≡ false → Tells ctx state fatal none (ok state)

  module _ (i : State) (ptr len : ℕ) where
    -- The bridge took the completions, which are UTF-8.
    pub record IsDelivered (bridge : Function) (ctx1 : Context) : Type 0 where
      pub answer : List ℕ
      pub good : from_utf8 (read i.memory ptr len) ≡ ok tt
      pub installed : i.bridge ≡ some bridge
      pub taken : js.call_bridge i.context bridge (read i.memory ptr len) 0 ≡ (ctx1, ok answer)

    -- Then the jobs ran, and the bridge was asked for its state.
    pub record IsAsked (outcome : Option (Result Error (Unit {0}))) (ctx3 : Context)
        (asked : Result Error (List ℕ)) : Type 0 where
      pub bridge : Function
      pub root : Promise
      pub ctx1 : Context
      pub ctx2 : Context
      pub mode : ℕ
      pub delivered : IsDelivered bridge ctx1
      pub rooted : i.root ≡ some root
      pub settles : Settles js root ctx1 ctx2 outcome
      pub asks : Asks outcome mode
      pub called : js.call_bridge ctx2 bridge (into_bytes "[]") mode ≡ (ctx3, asked)

    -- What a step says, on every path that says something.
    pub data Says : Result Anyhow (List ℕ) → Type 0 where
      malformed : (e : Anyhow) → from_utf8 (read i.memory ptr len) ≡ err e → Says (err e)
      refused :
          (bridge : Function) (ctx1 : Context) (e : Error)
          → from_utf8 (read i.memory ptr len) ≡ ok tt
          → i.bridge ≡ some bridge
          → js.call_bridge i.context bridge (read i.memory ptr len) 0 ≡ (ctx1, err e)
          → Says (err (js.from_js_error ctx1 e))
      rootless :
          (bridge : Function) (ctx1 : Context)
          → IsDelivered bridge ctx1
          → i.root ≡ none
          → Says (ok (into_bytes "{\"done\":true,\"fatal\":false,\"requests\":[]}"))
      unanswered :
          (outcome : Option (Result Error (Unit {0}))) (ctx3 : Context) (e : Error)
          → IsAsked outcome ctx3 (err e)
          → Says (err (js.from_js_error ctx3 e))
      reported :
          (outcome : Option (Result Error (Unit {0}))) (ctx3 : Context) (state : List ℕ)
          (v : json.Value) (told : Result Anyhow (List ℕ))
          → IsAsked outcome ctx3 (ok state)
          → json.from_slice state ≡ ok v
          → Tells ctx3 state (json.is_true v "fatal") outcome told
          → Says told

    -- The bridge reported a state that is no JSON.
    pub record IsGarbled : Type 0 where
      pub outcome : Option (Result Error (Unit {0}))
      pub ctx3 : Context
      pub state : List ℕ
      pub e : Anyhow
      pub asked : IsAsked outcome ctx3 (ok state)
      pub garbled : json.from_slice state ≡ err e

    -- What was said is what the record at `at` holds, unless it is as long as the address space, and
    -- the thread-locals stay.
    pub record IsTold (i' : State) (at : ℕ) : Type 0 where
      pub told : Result Anyhow (List ℕ)
      pub says : Says told
      pub held :
          (u32_mod ≤ length (spoken places told).1)
          ⊎ Holds i'.memory at (spoken places told).0 (spoken places told).1
      pub same_bridge : i.bridge ≡ i'.bridge
      pub same_root : i.root ≡ i'.root

    -- How a step may end. It never aborts.
    abbrev pub Stands : Ends State ℕ → Type 0
    Stands panics = (i.bridge ≡ none) ⊎ IsGarbled
    Stands (aborts e) = ⊥
    Stands (returns i' at) = IsTold i' at
