-- ===== src/Sandbox/Finish.antt =====
-- How `Sandbox::finish` of native/javex_nif/src/sandbox.rs reports a call.
use javex.Base.{
  ◌≤◌, ◌<◌, ◌≡◌, ◌↔◌, ◌⊎◌, inl, inr, refl, sym, ap, ◌∙◌, true, false, String, Anyhow, message,
  trapped, Trap, Failure, leb, leb→le, Bool-cases, Result-cases, Result, ok, err, map_err, arith,
  subst,
}
use javex.Output
use javex.Base.{ok-injective, err-injective}
use javex.Relay.{any_eq, failure_kinds}
use javex.Sandbox.{Text, World, Sandbox, is_blank, is_out_of_fuel, is_unreachable, explain, finish}

clash {ℓ} : {A : Type ℓ} {a : A} {f : Failure} → ◌≡◌ {A = Result Failure A} (ok a) (err f) → ⊥
clash e = cc

module _ (text : Text) {G L K M : Type 0} (s : Sandbox) (w : World G L K M) where
  -- Nothing stopped the call and no quota was exceeded.
  pub record IsClean : Type 0 where
    pub running : w.flags.cell s.control.cancelled ≡ false
    pub in_time : w.now < s.control.deadline
    pub memory : w.limiter.exceeded ≡ false
    pub stdout : Output.exceeded s.stdout w.heap ≡ false
    pub stderr : Output.exceeded s.stderr w.heap ≡ false

  module _ {A : Type 0} (result : Result Anyhow A) where
    -- Which report is due, in the order in which the causes are looked at: a cancellation, then the
    -- deadline, then the quotas of memory, stdout and stderr. Only then does the result of the guest
    -- count: a value, exhausted fuel, an uncaught exception of JavaScript (the trap of `abort` with
    -- something written to stderr), or another trap.
    pub data Report (r : Result Failure A) : Type 0 where
      was_cancelled :
          w.flags.cell s.control.cancelled ≡ true
          → r ≡ err ("cancelled", "execution cancelled")
          → Report r
      timed_out :
          w.flags.cell s.control.cancelled ≡ false
          → s.control.deadline ≤ w.now
          → r ≡ err ("timeout", "execution timed out")
          → Report r
      no_memory :
          w.flags.cell s.control.cancelled ≡ false
          → w.now < s.control.deadline
          → w.limiter.exceeded ≡ true
          → r ≡ err ("oom", "guest memory or table limit exceeded")
          → Report r
      long_output :
          w.flags.cell s.control.cancelled ≡ false
          → w.now < s.control.deadline
          → w.limiter.exceeded ≡ false
          → Output.exceeded s.stdout w.heap ≡ true
          → r ≡ err ("output_limit", "stdout limit exceeded")
          → Report r
      long_diagnostics :
          w.flags.cell s.control.cancelled ≡ false
          → w.now < s.control.deadline
          → w.limiter.exceeded ≡ false
          → Output.exceeded s.stdout w.heap ≡ false
          → Output.exceeded s.stderr w.heap ≡ true
          → r ≡ err ("diagnostic_limit", "stderr limit exceeded")
          → Report r
      returned : IsClean → (a : A) → result ≡ ok a → r ≡ ok a → Report r
      no_fuel :
          IsClean
          → result ≡ err (trapped Trap.out_of_fuel)
          → r ≡ err ("fuel_exhausted", "fuel exhausted")
          → Report r
      threw :
          IsClean
          → result ≡ err (trapped Trap.unreachable_code_reached)
          → is_blank (text.lossy (Output.contents s.stderr w.heap)) ≡ false
          → r ≡ err ("js_error", text.lossy (Output.contents s.stderr w.heap))
          → Report r
      failed :
          IsClean
          → (e : Anyhow) → result ≡ err e
          → is_out_of_fuel e ≡ false
          → (is_unreachable e ≡ false)
            ⊎ (is_blank (text.lossy (Output.contents s.stderr w.heap)) ≡ true)
          → r ≡ err ("trap", text.format e)
          → Report r

    -- The result of the guest counts once the quotas are kept.
    explain-Report :
        IsClean → Report (map_err (explain text (Output.contents s.stderr w.heap)) result)
    unfolding explain
    explain-Report c = elim (Result-cases result) [
      | inl (a, e) ↦
          returned c a e (ap (map_err (explain text (Output.contents s.stderr w.heap))) e)
      | inr (e, r) ↦
          subst Report (sym (ap (map_err (explain text (Output.contents s.stderr w.heap))) r))
            (due e r)
    ]
      where
        due :
            (e : Anyhow)
            → result ≡ err e
            → Report (err (explain text (Output.contents s.stderr w.heap) e))
        due (trapped Trap.out_of_fuel) r = no_fuel c r refl
        due (trapped Trap.unreachable_code_reached) r =
            elim (Bool-cases (is_blank (text.lossy (Output.contents s.stderr w.heap)))) [
              | inl blank ↦ rw blank (failed c _ r refl (inr blank) refl)
              | inr written ↦ rw written (threw c r written refl)
            ]
        due (trapped (Trap.other_trap m)) r =
            elim (Bool-cases (is_blank (text.lossy (Output.contents s.stderr w.heap)))) [
              | inl blank ↦ rw blank (failed c (trapped (Trap.other_trap m)) r refl (inl refl) refl)
              | inr written ↦
                  rw written (failed c (trapped (Trap.other_trap m)) r refl (inl refl) refl)
            ]
        due (message m) r =
            elim (Bool-cases (is_blank (text.lossy (Output.contents s.stderr w.heap)))) [
              | inl blank ↦ rw blank (failed c (message m) r refl (inl refl) refl)
              | inr written ↦ rw written (failed c (message m) r refl (inl refl) refl)
            ]

    -- `finish` reports what is due, in every case.
    pub finish-Report : Report (finish text s w result)
    unfolding finish
    finish-Report = elim (Bool-cases (w.flags.cell s.control.cancelled)) [
      | inl c ↦ was_cancelled c (ground arith)
      | inr c ↦ elim (Bool-cases (leb s.control.deadline w.now)) [
        | inl t ↦ timed_out c (leb→le _ _ t) (ground arith)
        | inr t ↦ elim (Bool-cases w.limiter.exceeded) [
          | inl m ↦ no_memory c (ground arith) m (ground arith)
          | inr m ↦ elim (Bool-cases (Output.exceeded s.stdout w.heap)) [
            | inl o ↦ long_output c (ground arith) m o (ground arith)
            | inr o ↦ elim (Bool-cases (Output.exceeded s.stderr w.heap)) [
              | inl d ↦ long_diagnostics c (ground arith) m o d (ground arith)
              | inr d ↦ subst Report (ground arith) (
                  explain-Report (record {
                    running = c;
                    in_time = ground arith;
                    memory = m;
                    stdout = o;
                    stderr = d;
                  }))
            ]
          ]
        ]
      ]
    ]

    value_of : {r : Result Failure A} {a : A} → Report r → r ≡ ok a → IsClean × (result ≡ ok a)
    value_of (was_cancelled c e) done = absurd (clash (sym done ∙ e))
    value_of (timed_out c t e) done = absurd (clash (sym done ∙ e))
    value_of (no_memory c t m e) done = absurd (clash (sym done ∙ e))
    value_of (long_output c t m o e) done = absurd (clash (sym done ∙ e))
    value_of (long_diagnostics c t m o d e) done = absurd (clash (sym done ∙ e))
    value_of (returned c a same e) done = (c, same ∙ ap ok (ok-injective (sym e ∙ done)))
    value_of (no_fuel c r e) done = absurd (clash (sym done ∙ e))
    value_of (threw c r w e) done = absurd (clash (sym done ∙ e))
    value_of (failed c x r f u e) done = absurd (clash (sym done ∙ e))

    -- A call succeeds exactly if the guest returned the value, nobody cancelled it, its deadline lies
    -- ahead, and no quota was exceeded, even if the guest went on after the refusal.
    pub finish-ok_iff : (a : A) → (finish text s w result ≡ ok a) ↔ (IsClean × (result ≡ ok a))
    finish-ok_iff a = (value_of finish-Report, back)
      where
        back : IsClean × (result ≡ ok a) → finish text s w result ≡ ok a
        back (c, e) = unfold finish in ground arith

    known :
        {k m k' m' : String}
        → ◌≡◌ {A = Result Failure A} (err (k', m')) (err (k, m))
        → any_eq k' failure_kinds ≡ true
        → any_eq k failure_kinds ≡ true
    known e t = sym (ap (λ (f : Failure). any_eq f.0 failure_kinds) (err-injective e)) ∙ t

    kind_of :
        {r : Result Failure A} {k m : String}
        → Report r
        → r ≡ err (k, m)
        → any_eq k failure_kinds ≡ true
    unfolding any_eq
    kind_of (was_cancelled c e) done = known (sym e ∙ done) refl
    kind_of (timed_out c t e) done = known (sym e ∙ done) refl
    kind_of (no_memory c t m e) done = known (sym e ∙ done) refl
    kind_of (long_output c t m o e) done = known (sym e ∙ done) refl
    kind_of (long_diagnostics c t m o d e) done = known (sym e ∙ done) refl
    kind_of (returned c a same e) done = absurd (clash (sym e ∙ done))
    kind_of (no_fuel c r e) done = known (sym e ∙ done) refl
    kind_of (threw c r w e) done = known (sym e ∙ done) refl
    kind_of (failed c x r f u e) done = known (sym e ∙ done) refl

    -- Every failure has one of the kinds that the supervisor of the worker lets through.
    pub finish-known :
        {k m : String} → finish text s w result ≡ err (k, m) → any_eq k failure_kinds ≡ true
    finish-known = kind_of finish-Report
