-- ===== src/Relay/Traffic.antt =====
-- What the supervisor's reader lets through (native/javex_nif/src/worker.rs, `supervise`), whatever the
-- child writes.
use javex.Base.{
  ℕ, zero, suc, ◌+◌, ◌-◌, ◌≤◌, ◌<◌, ◌≡◌, sym, ap, ◌∙◌, Bool, true, false, some, List, [], ◌∷◌, ◌++◌,
  append_assoc, append-nil, String, str_eq, Anyhow, message, length, Result, ok, err, ensure, ok_or,
  >>=-eq-ok, ok-injective, Result-cases, inl, inr, Bool-cases, wrapping_sub, wrapping_sub-eq, min,
  arith, usize_mod, All, ok_or-eq-ok,
}
use javex.Ipc.{Json, Pipe, read_frame, event, write_frame}
use javex.Ipc.Frames.{frame, read_frame-ok, write_frame-ok}
use javex.Relay.{Maxima, maximum_for, Round, round, relay, is_empty}

-- One event of the protocol: its kind and its payload.
abbrev pub Event : Type 0
Event = String × List ℕ

-- The bytes of all payloads.
abbrev pub payloads : List Event → ℕ
payloads [] = 0
payloads ((k, b) ∷ es) = length b + payloads es

module _ (json : Json) where
  -- The frames of events.
  abbrev pub encoded : List Event → List ℕ
  encoded [] = []
  encoded ((k, b) ∷ es) = frame (json.to_vec k) ++ (frame b ++ encoded es)

  pub event-ok :
      (p p' : Pipe) (k : String) (b : List ℕ)
      → event json p k b ≡ ok p'
      → (p'.bytes ≡ p.bytes ++ (frame (json.to_vec k) ++ frame b)) × (p'.is_open ≡ p.is_open)
  unfolding event
  event-ok p p' k b done =
      let (q, first, second) = >>=-eq-ok (write_frame p (json.to_vec k)) _ done in
      let (small, open_p, open_q, bytes_q) = write_frame-ok p q (json.to_vec k) first in
      let (small', open_q', open_p', bytes_p) = write_frame-ok q p' b second in
      (
        bytes_p
            ∙ ap (λ x. x ++ frame b) bytes_q
            ∙ append_assoc p.bytes (frame (json.to_vec k)) (frame b),
        open_p' ∙ sym open_p,
      )

-- The event is of a known kind and its payload within the limit of that kind.
abbrev pub IsAdmitted : Maxima → Event → Type 0
IsAdmitted m (k, b) = (maximum : ℕ) × (maximum_for m k ≡ some maximum) × (length b ≤ maximum)

-- Callbacks, and then one event of another kind.
abbrev pub IsComplete : List Event → Type 0
IsComplete [] = ⊥
IsComplete (e ∷ []) = str_eq e.0 "callbacks" ≡ false
IsComplete (e ∷ f ∷ es) = (str_eq e.0 "callbacks" ≡ true) × IsComplete (f ∷ es)

-- A success comes with a complete sequence of events.
abbrev pub Ends : Result Anyhow (Unit {0}) → List Event → Type 0
Ends (ok u) events = IsComplete events
Ends (err e) events = Unit

module _ (json : Json) (m : Maxima) where
  -- What one round sends.
  record Sends (remaining : ℕ) (pipe : Pipe) (r : Round) (e : Event) : Type 0 where
    kind : r.kind ≡ e.0
    written : r.pipe.bytes ≡ pipe.bytes ++ (frame (json.to_vec e.0) ++ frame e.1)
    budget : length e.1 + r.remaining ≤ remaining
    admitted : IsAdmitted m e

  round-Sends :
      (remaining : ℕ) (stream : List ℕ) (pipe : Pipe) (r : Round)
      → remaining < usize_mod
      → round json m remaining stream pipe ≡ ok r
      → (e : Event) × Sends remaining pipe r e
  unfolding round
  round-Sends remaining stream pipe r word done =
      let (h, got_h, s1) = >>=-eq-ok (read_frame stream (min 4096 remaining)) _ done in
      let (hs, hf, hl, hsplit, h_budget) =
        read_frame-ok stream h.0 h.1 (min 4096 remaining) h.2 (omega arith) got_h in
      let rest = wrapping_sub remaining (length h.0) in
      let left : rest ≡ remaining - length h.0 =
        wrapping_sub-eq remaining (length h.0) word (omega (arith, h_budget)) in
      let (k, got_k, s2) = >>=-eq-ok (json.from_slice h.0) _ s1 in
      let (maximum, got_max, s3) = >>=-eq-ok (ok_or (maximum_for m k) _) _ s2 in
      let (b, got_b, s4) = >>=-eq-ok (read_frame h.1 (min maximum rest)) _ s3 in
      let (bs, bf, bl, bsplit, b_budget) =
        read_frame-ok h.1 b.0 b.1 (min maximum rest) b.2 (omega (arith, left)) got_b in
      let (q, got_q, same) = >>=-eq-ok (event json pipe k b.0) _ s4 in
      let now = ok-injective same in
      let left' : wrapping_sub rest (length b.0) ≡ rest - length b.0 =
        wrapping_sub-eq rest (length b.0) (omega (arith, left)) (omega (arith, b_budget)) in
      (
        (k, b.0),
        record {
          kind = ap (λ (x : Round). x.kind) (sym now);
          written =
              ap (λ (x : Round). x.pipe.bytes) (sym now) ∙ (event-ok json pipe q k b.0 got_q).0;
          budget =
              omega (arith, ap (λ (x : Round). x.remaining) now, left, left', b_budget, h_budget);
          admitted = (maximum, ok_or-eq-ok (maximum_for m k) _ got_max, omega (arith, b_budget));
        },
      )

  -- What the whole loop sends.
  pub record Relays (n remaining : ℕ) (pipe pipe' : Pipe) (events : List Event) : Type 0 where
    pub written : pipe'.bytes ≡ pipe.bytes ++ encoded json events
    pub rounds : length events ≤ n
    pub traffic : payloads events ≤ remaining
    pub admitted : All (IsAdmitted m) events

  one_more :
      {n remaining : ℕ} {pipe pipe' : Pipe} {r : Round} {e : Event} {events : List Event}
      → Sends remaining pipe r e
      → Relays n r.remaining r.pipe pipe' events
      → Relays (suc n) remaining pipe pipe' (e ∷ events)
  one_more {pipe} {e} {events} s l = record {
    written =
        l.written
        ∙ ap (λ x. x ++ encoded json events) s.written
        ∙ regroup pipe.bytes (frame (json.to_vec e.0)) (frame e.1) (encoded json events);
    rounds = omega (arith, l.rounds);
    traffic = omega (arith, s.budget, l.traffic);
    admitted = (s.admitted, l.admitted);
  }
    where
      regroup : (a b c d : List ℕ) → (a ++ (b ++ c)) ++ d ≡ a ++ (b ++ (c ++ d))
      regroup a b c d = simp append_assoc

  none_sent : (n remaining : ℕ) (pipe : Pipe) → Relays n remaining pipe pipe []
  none_sent n remaining pipe = record {
    written = sym (append-nil pipe.bytes);
    rounds = omega arith;
    traffic = omega arith;
    admitted = tt;
  }

  -- Whatever bytes the child writes, with a budget below 2^64, what goes on to the BEAM is a
  -- sequence of whole events, no more than the rounds of the loop, each of a known kind and within
  -- the limit of its kind, and their payloads together within the budget. If the loop reports
  -- success, the events are callbacks and then one final event of another kind.
  pub relay-Relays :
      (n remaining : ℕ) (stream : List ℕ) (pipe : Pipe)
      → remaining < usize_mod
      → (events : List Event) × Relays n remaining pipe
          (relay json m n remaining stream pipe).0
          events
        × Ends (relay json m n remaining stream pipe).1 events
  unfolding relay
  relay-Relays zero remaining stream pipe word = ([], none_sent 0 remaining pipe, tt)
  relay-Relays (suc n) remaining stream pipe word =
      elim (Result-cases (round json m remaining stream pipe)) [
        | inr (e, failed) ↦ rw (failed, relay) ([], none_sent (suc n) remaining pipe, tt)
        | inl (r, done) ↦
            let (e, s) = round-Sends remaining stream pipe r word done in
            elim (Bool-cases (str_eq r.kind "callbacks")) [
              | inr final ↦
                  rw (done, relay, final)
                    (
                      e ∷ [],
                      one_more s (none_sent n r.remaining r.pipe),
                      last (is_empty r.stream) e
                          (ap (λ k. str_eq k "callbacks") (sym s.kind) ∙ final),
                    )
              | inl more ↦
                  let (events, l, complete) =
                    relay-Relays n r.remaining r.stream r.pipe (omega (arith, s.budget)) in
                  rw (done, relay, more)
                    (
                      e ∷ events,
                      one_more s l,
                      later _ e events (ap (λ k. str_eq k "callbacks") (sym s.kind) ∙ more)
                          complete,
                    )
            ]
      ]
    where
      last :
          (b : Bool) (e : Event)
          → str_eq e.0 "callbacks" ≡ false
          → Ends (ensure b (message "extra worker output")) (e ∷ [])
      last true e h = h
      last false e h = tt

      later :
          (r : Result Anyhow (Unit {0})) (e : Event) (es : List Event)
          → str_eq e.0 "callbacks" ≡ true
          → Ends r es
          → Ends r (e ∷ es)
      later (err f) e es h c = tt
      later (ok u) e [] h c = elim c [ ]
      later (ok u) e (f ∷ es) h c = (h, c)
