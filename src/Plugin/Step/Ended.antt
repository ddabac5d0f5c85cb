-- ===== src/Plugin/Step/Ended.antt =====
-- That a step of native/javex_plugin/src/lib.rs comes to an end when the jobs of the script do.
use javex.Base.{
  ℕ, ◌<◌, ◌≡◌, refl, inl, inr, Option, Option-cases, none, some, List, Result, Result-cases, ok,
  err, subst, into_bytes, from_utf8,
}
use javex.Execution.Advance.{StateJson}
use javex.Plugin.{Ends, panics}
use javex.Plugin.Memory.{read}
use javex.Plugin.Settle.{QuickJs, settle}
use javex.Plugin.Settle.Relation.{Settles, jobs, settle_complete}
use javex.Plugin.Step.{Places, answer, done_state, report, drain, deliver, step}
use javex.Plugin.Step.Output.{IsPlaced}
use javex.Plugin.Step.Says.{State, Stands}
use javex.Plugin.Step.Sound.{step_sound}

module _ (js : QuickJs) (places : Places) (json : StateJson) where
  open js use {Context, Promise, Function, Error}

  -- The jobs that a promise needs in a context end, and `n` is enough for them.
  abbrev pub IsEnough : Promise → Context → ℕ → Type 0
  IsEnough root ctx n =
      (ctx' : Context) × (outcome : Option (Result Error (Unit {0}))) × (d : Settles js root ctx
        ctx' outcome)
      × (jobs js root d < n)

  abbrev Ended : Option (Ends (State js places json) ℕ) → Type 0
  Ended none = ⊥
  Ended (some e) = Unit {0}

  drain-Ended :
      (n : ℕ) (bridge : Function) (i : State js places json)
      → ((root : Promise) → i.root ≡ some root → IsEnough root i.context n)
      → Ended (drain js places json n bridge i)
  unfolding drain
  drain-Ended n bridge i enough = by_root i.root refl
    where
      ran :
          (o : Option (Context × Option (Result Error (Unit {0}))))
          → (x : Context × Option (Result Error (Unit {0}))) × (o ≡ some x)
          → Ended (elim o [
            | none ↦ none
            | some (ctx, outcome) ↦
                some (report js places json bridge (record i { context = ctx }) outcome)
          ])
      ran none (x, e) = cc
      ran (some (ctx, outcome)) e = tt

      by_root :
          (o : Option Promise)
          → i.root ≡ o
          → Ended (elim o [
            | none ↦ some (answer js places json i (ok (into_bytes (done_state js places json))))
            | some root ↦ elim (settle js root n i.context) [
              | none ↦ none
              | some (ctx, outcome) ↦
                  some (report js places json bridge (record i { context = ctx }) outcome)
            ]
          ])
      by_root none e = tt
      by_root (some root) e =
          let (ctx, outcome, d, fuel) = enough root e in
          ran (settle js root n i.context) ((ctx, outcome), settle_complete js root d n fuel)

  module _ (i : State js places json) (ptr len n : ℕ)
      (enough : (bridge : Function) (root : Promise)
        → i.bridge ≡ some bridge
        → i.root ≡ some root
        → IsEnough root (js.call_bridge i.context bridge (read i.memory ptr len) 0).0 n) where
    deliver-Ended : Ended (deliver js places json n (read i.memory ptr len) i)
    unfolding deliver
    deliver-Ended = by_bridge i.bridge refl
      where
        called :
            (bridge : Function) (r : Context × Result Error (List ℕ))
            → ((root : Promise) → i.root ≡ some root → IsEnough root r.0 n)
            → Ended (elim r.1 [
              | err e ↦ some (
                  answer js places json (record i { context = r.0 }) (err (js.from_js_error r.0 e)))
              | ok _ ↦ drain js places json n bridge (record i { context = r.0 })
            ])
        called bridge (ctx, err e) left = tt
        called bridge (ctx, ok a) left = drain-Ended n bridge (record i { context = ctx }) left

        by_bridge :
            (o : Option Function)
            → i.bridge ≡ o
            → Ended (elim o [
              | none ↦ some panics
              | some bridge ↦ elim (js.call_bridge i.context bridge (read i.memory ptr len) 0).1 [
                | err e ↦ some (
                    answer js places json
                      (record i {
                        context = (js.call_bridge i.context bridge (read i.memory ptr len) 0).0;
                      })
                      (err (
                        js.from_js_error
                          (js.call_bridge i.context bridge (read i.memory ptr len) 0).0
                          e)))
                | ok _ ↦ drain js places json n bridge (record i {
                  context = (js.call_bridge i.context bridge (read i.memory ptr len) 0).0;
                })
              ]
            ])
        by_bridge none e = tt
        by_bridge (some bridge) e =
            called bridge (js.call_bridge i.context bridge (read i.memory ptr len) 0)
              (λ root rooted. enough bridge root e rooted)

    step-Ended : Ended (step js places json n ptr len i)
    unfolding step
    step-Ended = elim (Result-cases (from_utf8 (read i.memory ptr len))) [
      | inr (e, bad) ↦ rw (step, bad) tt
      | inl (_, good) ↦ rw (step, good) deliver-Ended
    ]

    -- With buffers that lie apart from the record, and if the jobs that the root needs, once the bridge
    -- has its completions, come to an end and the fuel is enough for them: a step ends, and never by an
    -- abort. It panics only if no bridge was configured, or if the bridge reports a state that is no
    -- JSON. Otherwise it returns the place of a record that holds what is to be said: that the
    -- completions are no UTF-8, the error of the bridge, that a script without a root is done, the state
    -- that the bridge reports when it is asked in the mode for the outcome of the jobs, or the rejection
    -- of the root, if no quota was exceeded. The thread-locals stay.
    pub step-Stands :
        IsPlaced places
        → (e : Ends (State js places json) ℕ) × (step js places json n ptr len i ≡ some e)
          × Stands js places json i ptr len e
    step-Stands placed = elim (Option-cases (step js places json n ptr len i)) [
      | inl nothing ↦ absurd (subst Ended nothing step-Ended)
      | inr (e, ends) ↦ (e, ends, step_sound js places json placed i ptr len n e ends)
    ]
