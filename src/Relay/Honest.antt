-- ===== src/Relay/Honest.antt =====
-- The supervisor's reader passes on the whole conversation of a child that keeps to the protocol
-- (native/javex_nif/src/worker.rs, `supervise`).
use javex.Base.{
  ℕ, zero, suc, ◌+◌, ◌-◌, ◌≤◌, ◌<◌, ◌≡◌, refl, ap, ◌∙◌, true, List, [], ◌∷◌, ◌++◌, append_assoc,
  append-nil, String, length, ok, wrapping_sub-eq, min, arith, u32_mod, All,
}
use javex.Ipc.{Json, Pipe, event}
use javex.Ipc.Frames.{frame, read_frame-frame, write_frame-frame}
use javex.Relay.{Maxima, round, relay}
use javex.Relay.Traffic.{Event, encoded, IsAdmitted, IsComplete}

module _ (json : Json) (m : Maxima) where
  -- What events cost of the budget, their kinds included.
  abbrev pub costs : List Event → ℕ
  costs [] = 0
  costs ((k, b) ∷ es) = length (json.to_vec k) + length b + costs es

  -- The kind is short enough for a header, and read back as it was written.
  abbrev pub HasKind : Event → Type 0
  HasKind (k, b) = (length (json.to_vec k) ≤ 4096) × (json.from_slice (json.to_vec k) ≡ ok k)

  -- A pipe after more bytes went through.
  abbrev pub sent : Pipe → List ℕ → Pipe
  sent pipe bytes = record pipe { bytes = pipe.bytes ++ bytes }

  round-frame :
      (remaining : ℕ) (rest : List ℕ) (pipe : Pipe) (k : String) (b : List ℕ)
      → remaining < u32_mod
      → pipe.is_open ≡ true
      → HasKind (k, b)
      → length (json.to_vec k) + length b ≤ remaining
      → IsAdmitted m (k, b)
      → round json m remaining (frame (json.to_vec k) ++ (frame b ++ rest)) pipe
        ≡ ok (record {
          kind = k;
          pipe = sent (sent pipe (frame (json.to_vec k))) (frame b);
          stream = rest;
          remaining = remaining - length (json.to_vec k) - length b;
        })
  unfolding round event
  round-frame remaining rest pipe k b word is_open (short, law) cost (maximum, known, fits) =
      let h = json.to_vec k in
      let left = remaining - length h in
      rw
        (
          read_frame-frame h (frame b ++ rest) (min 4096 remaining) (omega arith) (omega arith)
              (omega arith),
          law,
          wrapping_sub-eq remaining (length h) (omega arith) (omega arith),
          known,
          read_frame-frame b rest (min maximum left) (omega arith) (omega arith) (omega arith),
          write_frame-frame pipe h is_open (omega arith),
          write_frame-frame (sent pipe (frame h)) b is_open (omega arith),
          wrapping_sub-eq left (length b) (omega arith) (omega arith),
        )
        refl

  -- A complete sequence of admitted events, whose kinds fit a header and are read back as they were
  -- written, goes through an open pipe unchanged if it keeps to the rounds and to the budget, which
  -- is below 2^32, and the loop reports success.
  pub relay_honest :
      (events : List Event) (n remaining : ℕ) (pipe : Pipe)
      → remaining < u32_mod
      → pipe.is_open ≡ true
      → IsComplete events
      → All (IsAdmitted m) events
      → All HasKind events
      → costs events ≤ remaining
      → length events ≤ n
      → relay json m n remaining (encoded json events) pipe
        ≡ (sent pipe (encoded json events), ok tt)
  unfolding relay
  relay_honest [] n remaining pipe word is_open complete admitted short cost fits =
      elim complete [ ]
  relay_honest (e ∷ events) zero remaining pipe word is_open complete admitted short cost fits =
      absurd (omega arith)
  relay_honest (e ∷ []) (suc n) remaining pipe word is_open complete admitted short cost fits =
      rw
        (
          round-frame remaining [] pipe e.0 e.1 word is_open short.0 (omega arith) admitted.0,
          relay,
          complete,
        )
        (ap (λ b. (record pipe { bytes = b }, ok tt)) (regroup pipe.bytes _ _ []))
    where
      regroup : (a b c d : List ℕ) → (a ++ b) ++ c ≡ a ++ (b ++ (c ++ []))
      regroup a b c d = simp (append_assoc, append-nil)
  relay_honest (e ∷ f ∷ es) (suc n) remaining pipe word is_open complete admitted short cost fits =
      let rest = remaining - length (json.to_vec e.0) - length e.1 in
      let pipe' = sent (sent pipe (frame (json.to_vec e.0))) (frame e.1) in
      rw
        (
          round-frame remaining (encoded json (f ∷ es)) pipe e.0 e.1 word is_open short.0
              (omega arith) admitted.0,
          relay,
          complete.0,
        )
        (relay_honest (f ∷ es) n rest pipe' (omega arith) is_open complete.1 admitted.1 short.1
            (omega arith) (omega arith)
          ∙ ap (λ b. (record pipe { bytes = b }, ok tt)) (regroup pipe.bytes _ _ _))
    where
      regroup : (a b c d : List ℕ) → ((a ++ b) ++ c) ++ d ≡ a ++ (b ++ (c ++ d))
      regroup a b c d = simp append_assoc
