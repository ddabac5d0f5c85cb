-- ===== src/Plugin/Step/Reports.antt =====
-- What a step of native/javex_plugin/src/lib.rs answers, and what it makes of the state of the bridge.
use javex.Base.{
  ℕ, ◌<◌, ◌≤◌, ◌≡◌, ◌⊎◌, refl, arith, inl, inr, Bool, true, false, Bool-cases, Option, none, some,
  List, Anyhow, Result, Result-cases, length, ltb, ltb→le, ltb→lt, u32_mod, ok, err, into_bytes,
}
use javex.Execution.Advance.{StateJson}
use javex.Plugin.Settle.{QuickJs}
use javex.Plugin.Settle.Relation.{Settles}
use javex.Plugin.Step.{Places, output, answer, judge, read_state, mode, report}
use javex.Plugin.Step.Output.{IsPlaced, Holds, output-Holds}
use javex.Plugin.Step.Says.{
  State, Asks, settled_root, pending_root, Tells, exceeded, rejected, evaluated, waiting,
  IsDelivered, IsAsked, Says, unanswered, reported, Stands,
}

module _ (js : QuickJs) (places : Places) (json : StateJson) where
  open js use {Context, Promise, Function, Error}

  mode-Asks :
      (outcome : Option (Result Error (Unit {0})))
      → Asks js places json outcome (mode js places json outcome)
  mode-Asks none = pending_root
  mode-Asks (some r) = settled_root r

  judge-Tells :
      (ctx : Context) (state : List ℕ) (fatal : Bool) (outcome : Option (Result Error (Unit {0})))
      → Tells js places json ctx state fatal outcome (judge js places json ctx state fatal outcome)
  unfolding judge
  judge-Tells ctx state true outcome = exceeded outcome refl
  judge-Tells ctx state false (some (err e)) = rejected e refl
  judge-Tells ctx state false (some (ok tt)) = evaluated refl
  judge-Tells ctx state false none = waiting refl

  module _ (placed : IsPlaced places) (i : State js places json) (ptr len : ℕ) where
    held :
        (tag : ℕ) (payload : List ℕ) (ctx : Context)
        → tag < u32_mod
        → (u32_mod ≤ length payload)
          ⊎ Holds
              (output js places json tag payload (record i { context = ctx })).0.memory
              (output js places json tag payload (record i { context = ctx })).1
              tag
              payload
    held tag payload ctx small = elim (Bool-cases (ltb (length payload) u32_mod)) [
      | inr long ↦ inl (ltb→le (length payload) u32_mod long)
      | inl fits ↦ inr (
          output-Holds js places json placed tag payload (record i { context = ctx }) small
            (ltb→lt (length payload) u32_mod fits))
    ]

    pub answer-Stands :
        (ctx : Context) (told : Result Anyhow (List ℕ))
        → Says js places json i ptr len told
        → Stands js places json i ptr len (answer js places json (record i { context = ctx }) told)
    unfolding answer output
    answer-Stands ctx (ok state) says = record {
      told = ok state;
      says = says;
      held = held 0 state ctx (omega arith);
      same_bridge = refl;
      same_root = refl;
    }
    answer-Stands ctx (err e) says = record {
      told = err e;
      says = says;
      held = held 1 (into_bytes (places.display e)) ctx (omega arith);
      same_bridge = refl;
      same_root = refl;
    }

    module _ (bridge : Function) (ctx1 : Context)
        (delivered : IsDelivered js places json i ptr len bridge ctx1) where
      pub report-Stands :
          (root : Promise) (ctx2 : Context) (outcome : Option (Result Error (Unit {0})))
          → i.root ≡ some root
          → Settles js root ctx1 ctx2 outcome
          → Stands js places json i ptr len
              (report js places json bridge (record i { context = ctx2 }) outcome)
      unfolding report read_state
      report-Stands root ctx2 outcome rooted settles =
          told (js.call_bridge ctx2 bridge (into_bytes "[]") (mode js places json outcome)) refl
        where
          asked :
              (ctx3 : Context) (r : Result Error (List ℕ))
              → js.call_bridge ctx2 bridge (into_bytes "[]") (mode js places json outcome)
                ≡ (ctx3, r)
              → IsAsked js places json i ptr len outcome ctx3 r
          asked ctx3 r called = record {
            bridge = bridge;
            root = root;
            ctx1 = ctx1;
            ctx2 = ctx2;
            mode = mode js places json outcome;
            delivered = delivered;
            rooted = rooted;
            settles = settles;
            asks = mode-Asks outcome;
            called = called;
          }

          told :
              (r : Context × Result Error (List ℕ))
              → js.call_bridge ctx2 bridge (into_bytes "[]") (mode js places json outcome) ≡ r
              → Stands js places json i ptr len (elim r.1 [
                | err e ↦
                    answer js places json
                      (record i { context = r.0 })
                      (err (js.from_js_error r.0 e))
                | ok state ↦
                    read_state js places json
                      (record i { context = r.0 })
                      outcome
                      state
                      (json.from_slice state)
              ])
          told (ctx3, err e) called =
              answer-Stands ctx3 (err (js.from_js_error ctx3 e))
                (unanswered outcome ctx3 e (asked ctx3 (err e) called))
          told (ctx3, ok state) called = elim (Result-cases (json.from_slice state)) [
            | inr (e, garbled) ↦
                rw (garbled, read_state)
                  (inr (record {
                    outcome = outcome;
                    ctx3 = ctx3;
                    state = state;
                    e = e;
                    asked = asked ctx3 (ok state) called;
                    garbled = garbled;
                  }))
            | inl (v, parsed) ↦
                rw (parsed, read_state)
                  (answer-Stands ctx3
                    (judge js places json ctx3 state (json.is_true v "fatal") outcome)
                    (reported outcome ctx3 state v
                      (judge js places json ctx3 state (json.is_true v "fatal") outcome)
                      (asked ctx3 (ok state) called) parsed
                      (judge-Tells ctx3 state (json.is_true v "fatal") outcome)))
          ]
