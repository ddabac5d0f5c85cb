-- ===== src/Plugin/Step/Life.antt =====
-- The life of an instance of native/javex_plugin/src/lib.rs: what its first calls leave for the steps.
use javex.Base.{ℕ, ◌≡◌, inl, inr, sym, ◌∙◌, some, Result, ok, err, arith}
use javex.Execution.Advance.{StateJson}
use javex.Plugin.{Ends, returns, panics, aborts}
use javex.Plugin.Settle.{QuickJs}
use javex.Plugin.Step.{Places, invoke, configure, step}
use javex.Plugin.Step.Output.{IsPlaced}
use javex.Plugin.Step.Says.{State, IsGarbled, Stands}
use javex.Plugin.Step.Sound.{step_sound}

module _ (js : QuickJs) (places : Places) (json : StateJson) where
  open js use {Context, Promise, Function, Error}

  -- The bridge is installed.
  abbrev pub IsConfigured : State js places json → Type 0
  IsConfigured i = (bridge : Function) × (i.bridge ≡ some bridge)

  -- A call on `i` leaves the bridge installed, or the bridge reported a state that is no JSON.
  abbrev pub IsCalm : State js places json → ℕ → ℕ → Ends (State js places json) ℕ → Type 0
  IsCalm i ptr len panics = IsGarbled js places json i ptr len
  IsCalm i ptr len (aborts e) = ⊥
  IsCalm i ptr len (returns i' at) = IsConfigured i'

  configure-IsConfigured :
      (calls concurrent input : ℕ) (i i' : State js places json)
      → configure js places json calls concurrent input i ≡ returns i' tt
      → IsConfigured i'
  unfolding configure
  configure-IsConfigured calls concurrent input i i' h =
      evaluated (js.eval_bridge i.context calls concurrent input) h
    where
      evaluated :
          (r : Context × Result Error Function)
          → elim r.1 [
            | err e ↦ aborts (js.from_js_error r.0 e)
            | ok bridge ↦ returns (record i { context = r.0; bridge = some bridge }) tt
          ]
            ≡ returns i' tt
          → IsConfigured i'
      evaluated (ctx, err e) impossible = cc
      evaluated (ctx, ok bridge) same = (bridge, ground (arith, same))

  invoke_kept :
      (ptr len named : ℕ) (i i' : State js places json)
      → invoke js places json ptr len named i ≡ returns i' tt
      → i.bridge ≡ i'.bridge
  unfolding invoke
  invoke_kept ptr len named i i' h = ground (arith, h)

  Stands-IsCalm :
      (ptr len : ℕ) (i : State js places json) (e : Ends (State js places json) ℕ)
      → IsConfigured i
      → Stands js places json i ptr len e
      → IsCalm i ptr len e
  Stands-IsCalm ptr len i panics (bridge, known) (inl missing) =
      absurd (ground (arith, known, missing))
  Stands-IsCalm ptr len i panics c (inr garbled) = garbled
  Stands-IsCalm ptr len i (aborts e) c told = elim told [ ]
  Stands-IsCalm ptr len i (returns i' at) (bridge, known) told =
      (bridge, sym told.same_bridge ∙ known)

  -- With buffers that lie apart from the record: once an instance was configured and a module was
  -- invoked, a step that ends stops the guest only if the bridge reports a state that is no JSON, and
  -- then by a panic; else it returns and can be followed by another.
  pub invoke-step-IsCalm :
      (calls concurrent input code size n ptr len : ℕ) (i i1 i2 : State js places json)
      (e : Ends (State js places json) ℕ)
      → IsPlaced places
      → configure js places json calls concurrent input i ≡ returns i1 tt
      → invoke js places json code size 0 i1 ≡ returns i2 tt
      → step js places json n ptr len i2 ≡ some e
      → IsCalm i2 ptr len e
  invoke-step-IsCalm calls concurrent input code size n ptr len i i1 i2 e placed configured invoked
        ends =
      let (bridge, known) = configure-IsConfigured calls concurrent input i i1 configured in
      Stands-IsCalm ptr len i2 e (bridge, sym (invoke_kept code size 0 i1 i2 invoked) ∙ known)
        (step_sound js places json placed i2 ptr len n e ends)
