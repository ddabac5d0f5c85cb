-- ===== src/Supervisor/Completions.antt =====
-- The two threads of `supervise` (native/javex_nif/src/worker.rs) that carry completions from the BEAM
-- to the child: one reads frames and offers them to a bounded channel, one takes them and writes them
-- to the child. Either sets the cancellation flag when it ends. A run is any interleaving of steps.
pub mod Invariant
use javex.Base.{
  ℕ, suc, ◌+◌, ◌-◌, ◌≤◌, ◌<◌, ◌≡◌, ◌≢◌, Bool, true, false, Option, none, some, List, [], ◌∷◌, ◌++◌,
  length, min,
}

-- The writer: still sending the request, serving the channel, or gone.
pub data Writer : Type 0 where
  starting serving stopped : Writer

pub record Threads : Type 0 where
  -- The reader: what is left of its traffic and of its rounds, and whether it still runs.
  pub remaining : ℕ
  pub rounds : ℕ
  pub reading : Bool
  -- The buffer of the channel, the writer, and the frame that it has taken.
  pub queue : List (List ℕ)
  pub writer : Writer
  pub hand : Option (List ℕ)
  pub cancelled : Bool
  -- What the reader passed on, and what the writer wrote to the child, in order.
  pub received : List (List ℕ)
  pub sent : List (List ℕ)

-- The capacity of the channel (`max_callback_concurrency`) and the limit of a frame.
pub record Config : Type 0 where
  pub capacity : ℕ
  pub completion_maximum : ℕ
  pub max_callbacks : ℕ
  pub max_request : ℕ

-- The threads when they are spawned: `0..=max_callbacks` are `max_callbacks + 1` rounds.
abbrev pub spawned : Config → Threads
spawned c = record {
  remaining = c.max_request;
  rounds = c.max_callbacks + 1;
  reading = true;
  queue = [];
  writer = Writer.starting;
  hand = none;
  cancelled = false;
  received = [];
  sent = [];
}

-- A frame that `read_frame` lets through and that is not empty.
pub record IsFrame (c : Config) (t : Threads) (bytes : List ℕ) : Type 0 where
  pub running : t.reading ≡ true
  pub some_bytes : 0 < length bytes
  pub within : length bytes ≤ min t.remaining c.completion_maximum

-- The reader after it passed a frame on in the round that leaves `rounds`.
abbrev pub passed : Threads → ℕ → List ℕ → Threads
passed t rounds bytes = record t {
  remaining = t.remaining - length bytes;
  rounds = rounds;
  received = t.received ++ bytes ∷ [];
}

abbrev pub reader_ends : Threads → Threads
reader_ends t = record t { reading = false; cancelled = true }

abbrev pub writer_ends : Threads → Threads
writer_ends t = record t { writer = Writer.stopped; cancelled = true }

pub data Step (c : Config) : Threads → Threads → Type 0 where
  -- `try_send` into the buffer, while the writer still holds its end.
  buffers :
      (t : Threads) (rounds : ℕ) (bytes : List ℕ)
      → IsFrame c t bytes
      → t.rounds ≡ suc rounds
      → t.writer ≢ Writer.stopped
      → length t.queue < c.capacity
      → Step c t (record (passed t rounds bytes) { queue = t.queue ++ bytes ∷ [] })
  -- `try_send` to a writer that waits in `recv`, which a channel with no buffer needs.
  hands_over :
      (t : Threads) (rounds : ℕ) (bytes : List ℕ)
      → IsFrame c t bytes
      → t.rounds ≡ suc rounds
      → t.writer ≡ Writer.serving
      → t.hand ≡ none
      → t.queue ≡ []
      → Step c t (record (passed t rounds bytes) { hand = some bytes })
  -- The end of the stream, a frame that `read_frame` refuses, or an empty one.
  closes : (t : Threads) → t.reading ≡ true → Step c t (reader_ends t)
  -- `try_send` fails: the buffer is full, or the writer is gone.
  overruns :
      (t : Threads) (rounds : ℕ) (bytes : List ℕ)
      → IsFrame c t bytes
      → t.rounds ≡ suc rounds
      → c.capacity ≤ length t.queue
      → Step c t
          (record (reader_ends t) { remaining = t.remaining - length bytes; rounds = rounds })
  disconnects :
      (t : Threads) (rounds : ℕ) (bytes : List ℕ)
      → IsFrame c t bytes
      → t.rounds ≡ suc rounds
      → t.writer ≡ Writer.stopped
      → Step c t
          (record (reader_ends t) { remaining = t.remaining - length bytes; rounds = rounds })
  -- The `for` loop has run out of rounds.
  runs_out : (t : Threads) → t.reading ≡ true → t.rounds ≡ 0 → Step c t (reader_ends t)
  -- The writer has sent the request, or could not.
  serves :
      (t : Threads) → t.writer ≡ Writer.starting → Step c t (record t { writer = Writer.serving })
  fails_to_start : (t : Threads) → t.writer ≡ Writer.starting → Step c t (writer_ends t)
  -- `recv` takes the oldest frame; the write to the child succeeds or ends the writer.
  takes :
      (t : Threads) (bytes : List ℕ) (rest : List (List ℕ))
      → t.writer ≡ Writer.serving
      → t.hand ≡ none
      → t.queue ≡ bytes ∷ rest
      → Step c t (record t { queue = rest; hand = some bytes })
  writes :
      (t : Threads) (bytes : List ℕ)
      → t.writer ≡ Writer.serving
      → t.hand ≡ some bytes
      → Step c t (record t { hand = none; sent = t.sent ++ bytes ∷ [] })
  breaks :
      (t : Threads) (bytes : List ℕ)
      → t.writer ≡ Writer.serving
      → t.hand ≡ some bytes
      → Step c t (writer_ends t)
  -- `recv` fails: the reader is gone and the buffer is empty.
  drains :
      (t : Threads)
      → t.writer ≡ Writer.serving
      → t.hand ≡ none
      → t.queue ≡ []
      → t.reading ≡ false
      → Step c t (writer_ends t)

pub data Reach (c : Config) (s : Threads) : Threads → Type 0 where
  here : Reach c s s
  next : {t u : Threads} → Reach c s t → Step c t u → Reach c s u
