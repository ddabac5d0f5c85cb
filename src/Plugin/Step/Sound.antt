-- ===== src/Plugin/Step/Sound.antt =====
-- How a step of native/javex_plugin/src/lib.rs ends, on all of its paths.
use javex.Base.{
  ℕ, ◌≡◌, refl, subst, inl, inr, Option, none, some, List, Result, Result-cases, ok, err,
  into_bytes, from_utf8,
}
use javex.Execution.Advance.{StateJson}
use javex.Plugin.{Ends, panics}
use javex.Plugin.Memory.{read}
use javex.Plugin.Settle.{QuickJs, settle}
use javex.Plugin.Settle.Relation.{settle_sound}
use javex.Plugin.Step.{Places, answer, done_state, report, drain, deliver, step}
use javex.Plugin.Step.Reports.{answer-Stands, report-Stands}
use javex.Plugin.Step.Output.{IsPlaced}
use javex.Plugin.Step.Says.{State, IsDelivered, malformed, refused, rootless, Stands}

module _ (js : QuickJs) (places : Places) (json : StateJson) (placed : IsPlaced places)
    (i : State js places json) (ptr len : ℕ) where
  open js use {Context, Promise, Function, Error}

  -- No end yet, or one that a step may have.
  abbrev MayStand : Option (Ends (State js places json) ℕ) → Type 0
  MayStand none = Unit {0}
  MayStand (some e) = Stands js places json i ptr len e

  module _ (bridge : Function) (ctx1 : Context)
      (delivered : IsDelivered js places json i ptr len bridge ctx1) where
    drain-MayStand :
        (n : ℕ) → MayStand (drain js places json n bridge (record i { context = ctx1 }))
    unfolding drain
    drain-MayStand n = by_root i.root refl
      where
        ran :
            (root : Promise) (o : Option (Context × Option (Result Error (Unit {0}))))
            → i.root ≡ some root
            → settle js root n ctx1 ≡ o
            → MayStand (elim o [
              | none ↦ none
              | some (ctx, outcome) ↦
                  some (report js places json bridge (record i { context = ctx }) outcome)
            ])
        ran root none rooted e = tt
        ran root (some (ctx, outcome)) rooted e =
            report-Stands js places json placed i ptr len bridge ctx1 delivered root ctx outcome
              rooted (settle_sound js root n ctx1 ctx outcome e)

        by_root :
            (o : Option Promise)
            → i.root ≡ o
            → MayStand (elim o [
              | none ↦ some (
                  answer js places json
                    (record i { context = ctx1 })
                    (ok (into_bytes (done_state js places json))))
              | some root ↦ elim (settle js root n ctx1) [
                | none ↦ none
                | some (ctx, outcome) ↦
                    some (report js places json bridge (record i { context = ctx }) outcome)
              ]
            ])
        by_root none e =
            answer-Stands js places json placed i ptr len ctx1
              (ok (into_bytes (done_state js places json))) (rootless bridge ctx1 delivered e)
        by_root (some root) e = ran root (settle js root n ctx1) e refl

  deliver-MayStand :
      (n : ℕ)
      → from_utf8 (read i.memory ptr len) ≡ ok tt
      → MayStand (deliver js places json n (read i.memory ptr len) i)
  unfolding deliver
  deliver-MayStand n good = by_bridge i.bridge refl
    where
      called :
          (bridge : Function) (r : Context × Result Error (List ℕ))
          → i.bridge ≡ some bridge
          → js.call_bridge i.context bridge (read i.memory ptr len) 0 ≡ r
          → MayStand (elim r.1 [
            | err e ↦
                some (
                  answer js places json (record i { context = r.0 }) (err (js.from_js_error r.0 e)))
            | ok _ ↦ drain js places json n bridge (record i { context = r.0 })
          ])
      called bridge (ctx, err e) installed same =
          answer-Stands js places json placed i ptr len ctx (err (js.from_js_error ctx e))
            (refused bridge ctx e good installed same)
      called bridge (ctx, ok a) installed same =
          drain-MayStand bridge ctx
            (record { answer = a; good = good; installed = installed; taken = same }) n

      by_bridge :
          (o : Option Function)
          → i.bridge ≡ o
          → MayStand (elim o [
            | none ↦ some panics
            | some bridge ↦ elim (js.call_bridge i.context bridge (read i.memory ptr len) 0).1 [
              | err e ↦ some (
                  answer js places json
                    (record i {
                      context = (js.call_bridge i.context bridge (read i.memory ptr len) 0).0;
                    })
                    (err (
                      js.from_js_error
                        (js.call_bridge i.context bridge (read i.memory ptr len) 0).0
                        e)))
              | ok _ ↦ drain js places json n bridge (record i {
                context = (js.call_bridge i.context bridge (read i.memory ptr len) 0).0;
              })
            ]
          ])
      by_bridge none e = inl e
      by_bridge (some bridge) e =
          called bridge (js.call_bridge i.context bridge (read i.memory ptr len) 0) e refl

  step-MayStand : (n : ℕ) → MayStand (step js places json n ptr len i)
  unfolding step
  step-MayStand n = elim (Result-cases (from_utf8 (read i.memory ptr len))) [
    | inr (e, bad) ↦
        rw (step, bad)
          (answer-Stands js places json placed i ptr len i.context (err e) (malformed e bad))
    | inl (tt, good) ↦ rw (step, good) (deliver-MayStand n good)
  ]

  -- With buffers that lie apart from the record, a step that ends has ended as it may.
  pub step_sound :
      (n : ℕ) (e : Ends (State js places json) ℕ)
      → step js places json n ptr len i ≡ some e
      → Stands js places json i ptr len e
  step_sound n e h = subst MayStand h (step-MayStand n)
