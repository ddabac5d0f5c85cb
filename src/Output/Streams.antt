-- ===== src/Output/Streams.antt =====
-- Whole runs over the streams of native/javex_nif/src/output.rs: writes by any clone of any
-- stream, in any order, against the list of what was offered to one of them.
use javex.Base.{
  ℕ, ◌<◌, ◌≡◌, ◌≢◌, inl, inr, List, [], ◌∷◌, ◌++◌, append_assoc, append-nil, arith, length, take,
  ltb, ◌==◌, if◌then◌else◌, Bool-cases, ==_iff, usize_mod, take-nil,
}
use javex.Output.{Output, Heap, store, new, exceeded, contents, write, poll_write, flush}
use javex.Output.Quota.{Tracks, append-Tracks, append-Tracks_ne}

-- One call on a stream, with the handle that it goes through.
pub data Call : Type 0 where
  writes : Output → List ℕ → Call
  polls : Output → List ℕ → Call
  flushes : Output → Call
  checks : Output → Call

unfoldable pub step : Call → Heap → Heap
step (writes o bytes) h = (write o bytes h).0
step (polls o bytes) h = (poll_write o bytes h).0
step (flushes o) h = (flush o h).0
step (checks o) h = h

unfoldable pub run : List Call → Heap → Heap
run [] h = h
run (c ∷ cs) h = run cs (step c h)

-- The handle of a call, and the bytes that it offers.
abbrev pub handle : Call → Output
handle (writes o bytes) = o
handle (polls o bytes) = o
handle (flushes o) = o
handle (checks o) = o

abbrev pub payload : Call → List ℕ
payload (writes o bytes) = bytes
payload (polls o bytes) = bytes
payload (flushes o) = []
payload (checks o) = []

-- All that is offered to the state of `o`, in order.
abbrev pub offered : Output → List Call → List ℕ
offered o [] = []
offered o (c ∷ cs) = (if (handle c).state == o.state then payload c else []) ++ offered o cs

-- Handles that share the state of `o` are its clones.
abbrev pub AreClones : Output → List Call → Type 0
AreClones o [] = Unit
AreClones o (c ∷ cs) = ((handle c).state ≡ o.state → handle c ≡ o) × AreClones o cs

step-append :
    (c : Call) (h : Heap) {log : List ℕ} (o : Output)
    → handle c ≡ o
    → Tracks o h log
    → Tracks o (step c h) (log ++ payload c)
unfolding step write poll_write flush
step-append (writes o' bytes) h o e t = rw e (append-Tracks o bytes h t)
step-append (polls o' bytes) h o e t = rw e (append-Tracks o bytes h t)
step-append (flushes o') h o e t = rw append-nil t
step-append (checks o') h o e t = rw append-nil t

step-append_ne :
    (c : Call) (h : Heap) {log : List ℕ} (o : Output)
    → o.state ≢ (handle c).state
    → Tracks o h log
    → Tracks o (step c h) log
unfolding step write poll_write flush
step-append_ne (writes o' bytes) h o ne t = append-Tracks_ne o bytes h t o' ne
step-append_ne (polls o' bytes) h o ne t = append-Tracks_ne o bytes h t o' ne
step-append_ne (flushes o') h o ne t = t
step-append_ne (checks o') h o ne t = t

pub run-Tracks :
    (o : Output) (cs : List Call) (h : Heap) {log : List ℕ}
    → AreClones o cs
    → Tracks o h log
    → Tracks o (run cs h) (log ++ offered o cs)
unfolding run
run-Tracks o [] h clones t = rw append-nil t
run-Tracks o (c ∷ cs) h {log} clones t = elim (Bool-cases ((handle c).state == o.state)) [
  | inl here ↦
      rw (here, ← append_assoc)
        (run-Tracks o cs (step c h) clones.1 (step-append c h o (clones.0 ((==_iff _ _).0 here)) t))
  | inr there ↦
      rw there (run-Tracks o cs (step c h) clones.1 (step-append_ne c h o (λ e. ground (arith)) t))
]

new-Tracks :
    (capacity : ℕ) (h : Heap)
    → capacity < usize_mod
    → Tracks (new capacity h).0 (new capacity h).1 []
unfolding new store contents exceeded
new-Tracks capacity h w = record {
  word = w;
  kept = ground (arith, take-nil {A = ℕ} capacity);
  flagged = ground arith;
}

-- A new stream of a capacity below 2^64, after any calls through it, its clones and other streams,
-- holds the first `capacity` bytes of all that was offered to it, and its flag is set exactly when
-- more than `capacity` bytes were offered.
pub run-new :
    (capacity : ℕ) (h : Heap) (cs : List Call)
    → capacity < usize_mod
    → AreClones (new capacity h).0 cs
    → let o = (new capacity h).0 in
      let h' = run cs (new capacity h).1 in
      (contents o h' ≡ take capacity (offered o cs))
      × (exceeded o h' ≡ ltb capacity (length (offered o cs)))
unfolding new
run-new capacity h cs w clones =
    let t = run-Tracks (new capacity h).0 cs (new capacity h).1 clones (new-Tracks capacity h w) in
    (t.kept, t.flagged)
