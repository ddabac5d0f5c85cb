-- ===== src/Supervisor/Completions/Invariant.antt =====
-- What holds in every interleaving of the completion threads of native/javex_nif/src/worker.rs.
use javex.Base.{
  ℕ, suc, ◌+◌, ◌-◌, ◌≤◌, ◌<◌, ◌≡◌, refl, sym, ap, ◌∙◌, Bool, true, false, not, ◌||◌, Option, none,
  some, List, [], ◌∷◌, ◌++◌, append_assoc, append-nil, length, length-append, arith, All,
  All-append,
}
use javex.Supervisor.Completions.{
  Writer, Threads, Config, spawned, IsFrame, reader_ends, writer_ends, Step, Reach, buffers,
  hands_over, closes, overruns, disconnects, runs_out, serves, fails_to_start, takes, writes,
  breaks, drains, here, next,
}

abbrev pub bytes_of : List (List ℕ) → ℕ
bytes_of [] = 0
bytes_of (f ∷ fs) = length f + bytes_of fs

abbrev pub in_hand : Option (List ℕ) → List (List ℕ)
in_hand none = []
in_hand (some bytes) = bytes ∷ []

abbrev pub is_stopped : Writer → Bool
is_stopped Writer.stopped = true
is_stopped _ = false

bytes_of-snoc : (fs : List (List ℕ)) (f : List ℕ) → bytes_of (fs ++ f ∷ []) ≡ bytes_of fs + length f
bytes_of-snoc [] f = omega arith
bytes_of-snoc (g ∷ fs) f = omega (arith, bytes_of-snoc fs f)

-- A frame that was passed on.
abbrev pub IsCompletion : Config → List ℕ → Type 0
IsCompletion c f = (0 < length f) × (length f ≤ c.completion_maximum)

pub record Inv (c : Config) (t : Threads) : Type 0 where
  -- Nothing is lost, repeated or reordered on the way: what was passed on is what the child got, then
  -- what the writer holds, then the buffer.
  pub fifo : t.received ≡ t.sent ++ (in_hand t.hand ++ t.queue)
  pub traffic : bytes_of t.received + t.remaining ≤ c.max_request
  pub count : length t.received + t.rounds ≤ c.max_callbacks + 1
  pub frames : All (IsCompletion c) t.received
  pub bounded : length t.queue ≤ c.capacity
  -- The flag is up exactly when a thread has ended.
  pub flagged : t.cancelled ≡ (not t.reading || is_stopped t.writer)

spawned-Inv : (c : Config) → Inv c (spawned c)
spawned-Inv c = record {
  fifo = refl;
  traffic = omega arith;
  count = omega arith;
  frames = tt;
  bounded = omega arith;
  flagged = refl;
}

module _ (c : Config) {t : Threads} (v : Inv c t) where
  passed-frames :
      (bytes : List ℕ) → IsFrame c t bytes → All (IsCompletion c) (t.received ++ bytes ∷ [])
  passed-frames bytes f =
      All-append (IsCompletion c) t.received (bytes ∷ []) v.frames
        ((f.some_bytes, omega (arith, f.within)), tt)

  passed-traffic :
      (bytes : List ℕ)
      → IsFrame c t bytes
      → bytes_of (t.received ++ bytes ∷ []) + (t.remaining - length bytes) ≤ c.max_request
  passed-traffic bytes f = omega (arith, bytes_of-snoc t.received bytes, v.traffic, f.within)

  passed-count :
      (rounds : ℕ) (bytes : List ℕ)
      → t.rounds ≡ suc rounds
      → length (t.received ++ bytes ∷ []) + rounds ≤ c.max_callbacks + 1
  passed-count rounds bytes e = omega (arith, length-append t.received (bytes ∷ []), v.count)

  reader_ends-Inv : Inv c (reader_ends t)
  reader_ends-Inv = record {
    fifo = v.fifo;
    traffic = v.traffic;
    count = v.count;
    frames = v.frames;
    bounded = v.bounded;
    flagged = refl;
  }

  writer_ends-Inv : Inv c (writer_ends t)
  writer_ends-Inv = record {
    fifo = v.fifo;
    traffic = v.traffic;
    count = v.count;
    frames = v.frames;
    bounded = v.bounded;
    flagged = ground arith;
  }

  dropped-Inv :
      (rounds : ℕ) (bytes : List ℕ)
      → t.rounds ≡ suc rounds
      → Inv c (record (reader_ends t) { remaining = t.remaining - length bytes; rounds = rounds })
  dropped-Inv rounds bytes e = record {
    fifo = v.fifo;
    traffic = omega (arith, v.traffic);
    count = omega (arith, v.count);
    frames = v.frames;
    bounded = v.bounded;
    flagged = refl;
  }

-- Each step of either thread keeps the invariant.
Step-Inv : {c : Config} {t u : Threads} → Step c t u → Inv c t → Inv c u
Step-Inv {c} (buffers t rounds bytes f e running room) v = record {
  fifo = ap (λ r. r ++ bytes ∷ []) v.fifo ∙ regroup t.sent (in_hand t.hand) t.queue (bytes ∷ []);
  traffic = passed-traffic c v bytes f;
  count = passed-count c v rounds bytes e;
  frames = passed-frames c v bytes f;
  bounded = omega (arith, length-append t.queue (bytes ∷ []));
  flagged = v.flagged;
}
  where
    regroup : (a b q d : List (List ℕ)) → (a ++ (b ++ q)) ++ d ≡ a ++ (b ++ (q ++ d))
    regroup a b q d = simp append_assoc
Step-Inv {c} (hands_over t rounds bytes f e serving idle empty) v = record {
  fifo =
      ap (λ r. r ++ bytes ∷ [])
        (v.fifo
          ∙ ap (λ h. t.sent ++ (in_hand h ++ t.queue)) idle
          ∙ ap (λ q. t.sent ++ q) empty
          ∙ append-nil t.sent)
      ∙ ap (λ q. t.sent ++ (bytes ∷ q)) (sym empty);
  traffic = passed-traffic c v bytes f;
  count = passed-count c v rounds bytes e;
  frames = passed-frames c v bytes f;
  bounded = v.bounded;
  flagged = v.flagged;
}
Step-Inv {c} (closes t running) v = reader_ends-Inv c v
Step-Inv {c} (overruns t rounds bytes f e full) v = dropped-Inv c v rounds bytes e
Step-Inv {c} (disconnects t rounds bytes f e gone) v = dropped-Inv c v rounds bytes e
Step-Inv {c} (runs_out t running e) v = reader_ends-Inv c v
Step-Inv {c} (serves t starting) v = record {
  fifo = v.fifo;
  traffic = v.traffic;
  count = v.count;
  frames = v.frames;
  bounded = v.bounded;
  flagged = ground arith;
}
Step-Inv {c} (fails_to_start t starting) v = writer_ends-Inv c v
Step-Inv {c} (takes t bytes rest serving idle e) v = record {
  fifo = v.fifo ∙ ap (λ h. t.sent ++ (in_hand h ++ t.queue)) idle ∙ ap (λ q. t.sent ++ q) e;
  traffic = v.traffic;
  count = v.count;
  frames = v.frames;
  bounded = omega (arith, v.bounded, ap length e);
  flagged = v.flagged;
}
Step-Inv {c} (writes t bytes serving held) v = record {
  fifo =
      v.fifo
      ∙ ap (λ h. t.sent ++ (in_hand h ++ t.queue)) held
      ∙ sym (append_assoc t.sent (bytes ∷ []) t.queue);
  traffic = v.traffic;
  count = v.count;
  frames = v.frames;
  bounded = v.bounded;
  flagged = v.flagged;
}
Step-Inv {c} (breaks t bytes serving held) v = writer_ends-Inv c v
Step-Inv {c} (drains t serving idle empty ended) v = writer_ends-Inv c v

Reach-Inv : {c : Config} {s t : Threads} → Inv c s → Reach c s t → Inv c t
Reach-Inv v here = v
Reach-Inv v (next r st) = Step-Inv st (Reach-Inv v r)

-- In every interleaving, the child gets the completions that were passed on, in order, each once, but
-- for those that still wait in the writer's hand and in the buffer; the buffer keeps to its capacity,
-- the frames to their limit, their number to one more than the callbacks, and their bytes to the
-- traffic budget; and the cancellation flag is up exactly when the reader or the writer has ended.
pub spawned-Reach-Inv : (c : Config) (t : Threads) → Reach c (spawned c) t → Inv c t
spawned-Reach-Inv c t r = Reach-Inv (spawned-Inv c) r
