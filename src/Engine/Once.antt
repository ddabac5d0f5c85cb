-- ===== src/Engine/Once.antt =====
-- A process has one engine, and one clock (`initialize_engine` of native/javex_nif/src/sandbox.rs).
use javex.Base.{
  Option, ◌≤◌, ◌≡◌, refl, sym, subst, Bool, none, some, List, [], ◌∷◌, All, String, Anyhow, message,
  Result, Result-cases, ok, err, map_err, length, arith, inl, inr,
}
use javex.Engine.{config, Threads, Process, create, initialize_engine}

module _ {Engine : Type 0} (threads : Threads Engine) where
  open threads use {new_engine, spawn, recv}

  -- Once a call has returned, no other does anything, and each gets the same.
  pub initialize_engine_again :
      (isolated first : Bool) (engine : Option (Result String Engine)) (clocks : List Engine)
      → let p : Process Engine = record { engine = engine; clocks = clocks } in
        ((initialize_engine threads isolated (initialize_engine threads first p).0).0
          ≡ (initialize_engine threads first p).0)
        × ((initialize_engine threads isolated (initialize_engine threads first p).0).1
            ≡ (initialize_engine threads first p).1)
  unfolding initialize_engine
  initialize_engine_again isolated first none clocks = (refl, refl)
  initialize_engine_again isolated first (some engine) clocks = (refl, refl)

  -- Calls in the order in which `OnceLock` lets them in, and what they get.
  unfoldable pub calls : List Bool → Process Engine → Process Engine × List (Result Anyhow Engine)
  unfolding initialize_engine
  calls [] p = (p, [])
  calls (isolated ∷ later) p =
      let (p', got) = initialize_engine threads isolated p in
      let (p'', rest) = calls later p' in (p'', got ∷ rest)

  known :
      (later : List Bool) (clocks : List Engine) (engine : Result String Engine)
      → ((calls later (record { engine = some engine; clocks = clocks })).0
          ≡ record { engine = some engine; clocks = clocks })
        × All
            (λ r. r ≡ map_err (λ e. message e) engine)
            (calls later (record { engine = some engine; clocks = clocks })).1
  unfolding calls initialize_engine
  known [] clocks engine = (refl, tt)
  known (isolated ∷ later) clocks engine =
      let (same, all) = known later clocks engine in (same, (refl, all))

  -- The clock of an engine that is handed out runs, and no other.
  abbrev pub IsTicking : Result String Engine → List Engine → Type 0
  IsTicking (ok engine) clocks = clocks ≡ engine ∷ []
  IsTicking (err e) clocks = length clocks ≤ 1

  create-IsTicking :
      (isolated : Bool) → IsTicking (create threads isolated []).1 (create threads isolated []).0
  unfolding create
  create-IsTicking isolated = elim (Result-cases (new_engine (config isolated))) [
    | inr (e, failed) ↦ rw (create, failed) (omega arith)
    | inl (engine, made) ↦ elim (Result-cases (spawn engine)) [
      | inr (e, failed) ↦ rw (create, made, failed) (omega arith)
      | inl (tt, spawned) ↦ elim (Result-cases (recv engine)) [
        | inr (e, failed) ↦ rw (create, made, spawned, failed) (omega arith)
        | inl (tt, started) ↦ rw (create, made, spawned, started) refl
      ]
    ]
  ]

  -- In a new process, all calls get the same: what the first one, with its `isolated`, made. If that is
  -- an engine, its clock runs in one thread and there is no other; if not, there is at most one
  -- clock.
  pub calls_once :
      (isolated : Bool) (later : List Bool)
      → (engine : Result String Engine) × (engine ≡ (create threads isolated []).1)
        × All
            (λ r. r ≡ map_err (λ e. message e) engine)
            (calls (isolated ∷ later) (record { engine = none; clocks = [] })).1
        × IsTicking engine
            (calls (isolated ∷ later) (record { engine = none; clocks = [] })).0.clocks
  unfolding calls initialize_engine
  calls_once isolated later =
      let (clocks, engine) = create threads isolated [] in
      let (same, all) = known later clocks engine in
      (
        engine,
        refl,
        (refl, all),
        subst (λ (p : Process Engine). IsTicking engine p.clocks) (sym same)
            (create-IsTicking isolated),
      )
