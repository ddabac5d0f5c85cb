-- ===== src/Plugin/Bridge/Numbers.antt =====
-- The ids of the callbacks that wait in native/javex_plugin/src/bridge.js, even if the arguments make calls of
-- their own.
use javex.Base.{
  ℕ, ◌+◌, ◌≤◌, ◌<◌, ◌≡◌, ◌≢◌, refl, Bool, true, Bool-cases, inl, inr, List, [], ◌∷◌, All, length,
  ltb, arith,
}
use javex.Plugin.Bridge.Ids.{Distinct, All-map, All-without, Distinct-without}
use javex.Plugin.Bridge.{
  Json, text, undefined, throws, Call, Calls, call, no_calls, calls, Bridge, is_name, name_of, send,
  is_over, run, run_all, without, is_pending, complete, report, Event, calls_host, completes,
  reports, happen, history,
}

-- The ids were given out, and each waits once.
pub record IsNumbered (s : Bridge) : Type 0 where
  pub given : All (λ id. id ≤ s.count) s.pending
  pub once : Distinct s.pending

-- From one bridge to the next: ids are given out in order, what is new has a new id, and a quota stays
-- exceeded.
record Grows (s s' : Bridge) : Type 1 where
  pub later : s.count ≤ s'.count
  pub fresh :
      (P : ℕ → Type 0) → All P s.pending → ((id : ℕ) → s.count < id → P id) → All P s'.pending
  pub numbered : IsNumbered s → IsNumbered s'
  pub fatal : s.fatal ≡ true → s'.fatal ≡ true

Grows-trans : (a b c : Bridge) → Grows a b → Grows b c → Grows a c
Grows-trans a b c first second = record {
  later = omega (arith, first.later, second.later);
  fresh = λ P all new.
      second.fresh P (first.fresh P all new) (λ id more. new id (omega (arith, more, first.later)));
  numbered = λ n. second.numbered (first.numbered n);
  fatal = λ f. second.fatal (first.fatal f);
}

-- What holds of a bridge whatever happens to it.
record Keeps (s s' : Bridge) : Type 0 where
  pub later : s.count ≤ s'.count
  pub numbered : IsNumbered s → IsNumbered s'
  pub fatal : s.fatal ≡ true → s'.fatal ≡ true

complete-Keeps : (ids : List ℕ) (s : Bridge) → Keeps s (complete ids s).0
unfolding complete
complete-Keeps [] s = record { later = omega arith; numbered = λ n. n; fatal = λ f. f }
complete-Keeps (id ∷ ids) s = elim (Bool-cases (is_pending id s.pending)) [
  | inr unknown ↦
      rw (complete, unknown) (record { later = omega arith; numbered = λ n. n; fatal = λ f. f })
  | inl known ↦
      let s' = record s { pending = without id s.pending } in
      let rest = complete-Keeps ids s' in
      rw (complete, known)
        (record {
          later = rest.later;
          numbered = λ n. rest.numbered (record {
            given = All-without (λ i. i ≤ s.count) id s.pending n.given;
            once = Distinct-without id s.pending n.once;
          });
          fatal = rest.fatal;
        })
]

module _ (max_calls max_concurrent max_input : ℕ) where
  -- A call that gets an id, and sends nothing.
  counted :
      (s : Bridge) (fatal : Bool)
      → (s.fatal ≡ true → fatal ≡ true)
      → Grows s (record s { count = s.count + 1; fatal = fatal })
  counted s fatal stays = record {
    later = omega arith;
    fresh = λ P all new. all;
    numbered = λ n. record {
      given = All-map s.pending (λ id le. omega (arith, le)) n.given;
      once = n.once;
    };
    fatal = stays;
  }

  -- What is sent has the id of the outer call, which nothing that its argument did can have taken.
  send-Grows :
      (name : List ℕ) (json : Json) (s inner : Bridge)
      → Grows (record s { count = s.count + 1 }) inner
      → Grows s (send max_calls max_concurrent max_input (s.count + 1) name json inner)
  unfolding send
  send-Grows name undefined s inner grown =
      Grows-trans s (record s { count = s.count + 1 }) inner (counted s s.fatal (λ f. f)) grown
  send-Grows name throws s inner grown =
      Grows-trans s (record s { count = s.count + 1 }) inner (counted s s.fatal (λ f. f)) grown
  send-Grows name (text json) s inner grown =
      let all_grown =
        Grows-trans s (record s { count = s.count + 1 }) inner (counted s s.fatal (λ f. f)) grown in
      elim (Bool-cases (ltb max_input (length json))) [
        | inl long ↦
            rw (send, long)
              (record {
                later = all_grown.later;
                fresh = all_grown.fresh;
                numbered =
                    λ n. let m = all_grown.numbered n in record { given = m.given; once = m.once };
                fatal = λ f. refl;
              })
        | inr short ↦
            rw (send, short)
              (record {
                later = all_grown.later;
                fresh = λ P all new. (new (s.count + 1) (omega arith), all_grown.fresh P all new);
                numbered = λ n.
                    let m = all_grown.numbered n in
                    record {
                      given = (omega (arith, grown.later), m.given);
                      once = (
                        grown.fresh (λ id. id ≢ s.count + 1)
                            (All-map s.pending (λ id le. omega (arith, le)) n.given)
                            (λ id more. omega (arith, more)),
                        m.once,
                      );
                    };
                fatal = all_grown.fatal;
              })
      ]

  mutual
    unfolding run run_all

    run-Grows : (c : Call) (s : Bridge) → Grows s (run max_calls max_concurrent max_input c s)
    run-Grows (call name nested json) s =
        elim (Bool-cases (is_over max_calls max_concurrent max_input (s.count + 1) s)) [
          | inl over ↦ rw (run, over) (counted s true (λ f. refl))
          | inr room ↦ elim (Bool-cases (is_name name)) [
            | inr bad ↦ rw (run, room, bad) (counted s s.fatal (λ f. f))
            | inl good ↦
                rw (run, room, good)
                  (send-Grows (name_of name) json s
                    (run_all max_calls max_concurrent max_input nested
                      (record s { count = s.count + 1 }))
                    (run_all-Grows nested (record s { count = s.count + 1 })))
          ]
        ]

    run_all-Grows :
        (cs : Calls) (s : Bridge) → Grows s (run_all max_calls max_concurrent max_input cs s)
    run_all-Grows no_calls s = record {
      later = omega arith;
      fresh = λ P all new. all;
      numbered = λ n. n;
      fatal = λ f. f;
    }
    run_all-Grows (calls c cs) s =
        Grows-trans s (run max_calls max_concurrent max_input c s)
          (run_all max_calls max_concurrent max_input cs
            (run max_calls max_concurrent max_input c s))
          (run-Grows c s) (run_all-Grows cs (run max_calls max_concurrent max_input c s))

  happen-Keeps : (e : Event) (s : Bridge) → Keeps s (happen max_calls max_concurrent max_input e s)
  unfolding happen report
  happen-Keeps (calls_host c) s =
      let grown = run-Grows c s in
      record { later = grown.later; numbered = grown.numbered; fatal = grown.fatal }
  happen-Keeps (completes ids) s = complete-Keeps ids s
  happen-Keeps (reports done) s = record {
    later = omega arith;
    numbered = λ n. record { given = n.given; once = n.once };
    fatal = λ f. f;
  }

  history-Keeps :
      (events : List Event) (s : Bridge)
      → Keeps s (history max_calls max_concurrent max_input events s)
  unfolding history
  history-Keeps [] s = record { later = omega arith; numbered = λ n. n; fatal = λ f. f }
  history-Keeps (e ∷ events) s =
      let first = happen-Keeps e s in
      let rest = history-Keeps events (happen max_calls max_concurrent max_input e s) in
      record {
        later = omega (arith, first.later, rest.later);
        numbered = λ n. rest.numbered (first.numbered n);
        fatal = λ f. rest.fatal (first.fatal f);
      }

  -- If the ids of the callbacks that wait were given out, and each waits once, as in a new bridge, then this
  -- stays so whatever happens to the bridge, even if the arguments make calls of their own.
  pub history-IsNumbered :
      (events : List Event) (s : Bridge)
      → IsNumbered s
      → IsNumbered (history max_calls max_concurrent max_input events s)
  history-IsNumbered events s n = (history-Keeps events s).numbered n

  -- Once a quota was exceeded, whatever happens later to the bridge, its reports say so.
  pub history-fatal :
      (events : List Event) (s : Bridge) (done : Bool)
      → s.fatal ≡ true
      → (report done (history max_calls max_concurrent max_input events s)).1.fatal ≡ true
  unfolding report
  history-fatal events s done f = (history-Keeps events s).fatal f
