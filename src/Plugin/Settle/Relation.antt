-- ===== src/Plugin/Settle/Relation.antt =====
-- What the loop of `step` (native/javex_plugin/src/lib.rs) is to do, and that it does so.
use javex.Base.{
  ℕ, zero, suc, ◌+◌, ◌<◌, ◌≡◌, ◌↔◌, true, false, Bool-cases, Option, Option-cases, none, some, inl,
  inr, Result, arith, subst₂,
}
use javex.Plugin.Settle.{QuickJs, settle}

module _ (js : QuickJs) (root : js.Promise) where
  open js use {Context, Error, result, execute_pending_job}

  abbrev pub Outcome : Type 0
  Outcome = Option (Result Error (Unit {0}))

  -- Runnable jobs are executed one by one until the root settles, or no job is runnable.
  pub data Settles : Context → Context → Outcome → Type 0 where
    settled :
        (ctx : Context) (r : Result Error (Unit {0}))
        → result ctx root ≡ some r
        → Settles ctx ctx (some r)
    idle :
        (ctx : Context)
        → result ctx root ≡ none
        → (execute_pending_job ctx).1 ≡ false
        → Settles ctx (execute_pending_job ctx).0 none
    runs :
        (ctx : Context) {ctx' : Context} {o : Outcome}
        → result ctx root ≡ none
        → (execute_pending_job ctx).1 ≡ true
        → Settles (execute_pending_job ctx).0 ctx' o
        → Settles ctx ctx' o

  -- How many jobs are run.
  abbrev pub jobs : {ctx ctx' : Context} {o : Outcome} → Settles ctx ctx' o → ℕ
  jobs (settled ctx r e) = 0
  jobs (idle ctx e f) = 0
  jobs (runs ctx e f d) = suc (jobs d)

  -- With fuel for its jobs, the loop ends as the relation says.
  pub settle_complete :
      {ctx ctx' : Context} {o : Outcome} (d : Settles ctx ctx' o) (n : ℕ)
      → jobs d < n
      → settle js root n ctx ≡ some (ctx', o)
  unfolding settle
  settle_complete (settled ctx r e) (suc n) h = rw (settle, e)
  settle_complete (idle ctx e f) (suc n) h = rw (settle, e, f)
  settle_complete (runs ctx e f d) (suc n) h =
      rw (settle, e, f) (settle_complete d n (omega (arith, h)))
  settle_complete (settled ctx r e) zero h = absurd (omega (arith, h))
  settle_complete (idle ctx e f) zero h = absurd (omega (arith, h))
  settle_complete (runs ctx e f d) zero h = absurd (omega (arith, h))

  -- What the loop returns, the relation allows.
  pub settle_sound :
      (n : ℕ) (ctx ctx' : Context) (o : Outcome)
      → settle js root n ctx ≡ some (ctx', o)
      → Settles ctx ctx' o
  unfolding settle
  settle_sound zero ctx ctx' o h = cc
  settle_sound (suc n) ctx ctx' o h = elim (Option-cases (result ctx root)) [
    | inr (r, e) ↦
        subst₂ (Settles ctx) (ground (arith, h, e)) (ground (arith, h, e)) (settled ctx r e)
    | inl e ↦ elim (Bool-cases (execute_pending_job ctx).1) [
      | inr f ↦
          subst₂ (Settles ctx) (ground (arith, h, e, f)) (ground (arith, h, e, f)) (idle ctx e f)
      | inl t ↦
          runs ctx e t (settle_sound n (execute_pending_job ctx).0 ctx' o (ground (arith, h, e, t)))
    ]
  ]

  -- The loop returns an outcome, from enough fuel on, exactly if jobs that are executed one by one until
  -- the root settles or none is runnable lead there.
  pub settle_iff :
      (ctx ctx' : Context) (o : Outcome)
      → ((n : ℕ) × (settle js root n ctx ≡ some (ctx', o))) ↔ Settles ctx ctx' o
  settle_iff ctx ctx' o = (
    λ h. settle_sound h.0 ctx ctx' o h.1,
    λ d. (suc (jobs d), settle_complete d (suc (jobs d)) (omega arith)),
  )

  pub Settles_unique :
      (ctx a b : Context) (o p : Outcome) (d : Settles ctx a o) (f : Settles ctx b p)
      → (a ≡ b) × (o ≡ p)
  Settles_unique ctx a b o p d f =
      let n = suc (jobs d + jobs f) in
      let first = settle_complete d n (omega arith) in
      let second = settle_complete f n (omega arith) in (cc, cc)
