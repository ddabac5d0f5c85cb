-- ===== src/Execution/Advance/Refused.antt =====
-- A completion that `Execution::advance` of native/javex_nif/src/sandbox.rs refuses.
use javex.Base.{
  ℕ, ◌<◌, ◌≡◌, inl, inr, sym, ap, ◌∙◌, true, false, some, List, Anyhow, message, length, leb, err,
  is_err, arith, ok-ne-err, Result-cases,
}
use javex.Control.{check}
use javex.Sandbox.{World, Text, finish}
use javex.Sandbox.Finish.{finish-ok_iff}
use javex.Execution.{Provider, Bridge, Execution}
use javex.Execution.Advance.{StateJson, step_once, conclude, advance}
use javex.Execution.Advance.Laws.{bridged}

module _ {G L K M : Type 0} {p : Provider (World G L K M)} (text : Text) (json : StateJson)
    (e : Execution p) where
  step_once_refused :
      (b : Bridge p) (completion : List ℕ) (w : World G L K M)
      → e.max_completion < length completion
      → (f : Anyhow) × (step_once text json e b completion w ≡ (w, err f))
  unfolding step_once
  step_once_refused b completion w long =
      let over : leb (length completion) e.max_completion ≡ false = ground arith in
      elim (Result-cases (check e.sandbox.control w.flags w.now)) [
        | inl (_, live) ↦ (message "callback completion limit exceeded", rw (live, over))
        | inr (f, ended) ↦ (f, rw ended)
      ]

  conclude_err :
      (w : World G L K M) (f : Anyhow)
      → is_err (conclude text json e w (finish text e.sandbox w (err f))) ≡ true
  unfolding conclude
  conclude_err w f = elim (Result-cases {A = ℕ × List ℕ} (finish text e.sandbox w (err f))) [
    | inr (g, failed) ↦ rw (failed, conclude)
    | inl (a, good) ↦ absurd (ok-ne-err (sym ((finish-ok_iff text e.sandbox w (err f) a).0 good).1))
  ]

  -- A completion beyond the limit is refused before the guest sees it: the world stays, and the call
  -- fails.
  pub advance_refused :
      (b : Bridge p) (completion : List ℕ) (w : World G L K M)
      → e.bridge ≡ some b
      → e.max_completion < length completion
      → ((advance text json e completion w).0 ≡ w)
        × (is_err (advance text json e completion w).1 ≡ true)
  advance_refused b completion w known long =
      let (f, refused) = step_once_refused b completion w long in
      let answer = bridged text json e b completion w known in
      (
        ap (λ r. r.0) answer ∙ ap (λ r. r.0) refused,
        ap (λ r. is_err r.1) answer
            ∙ ap (λ r. is_err (conclude text json e r.0 (finish text e.sandbox r.0 r.1))) refused
            ∙ conclude_err w f,
      )
