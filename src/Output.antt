-- ===== src/Output.antt =====
-- `Output` of native/javex_nif/src/output.rs: the host-side buffer of a guest's stdout or stderr,
-- with its quota. The clones of a stream share one `Arc<Mutex<State>>`, so the states live on a
-- heap and a handle holds the place of its state. `usize` arithmetic wraps as in a release build.
pub mod Quota
pub mod Streams
mod Tests
use javex.Base.{
  ℕ, suc, ◌+◌, ◌<◌, min, max, Bool, true, false, List, [], ◌++◌, arith, length, take, ltb, ◌==◌,
  if◌then◌else◌, Result, ok, err, discard, map_err, wrapping_sub,
}

-- The bytes that were accepted, and whether a write ever met the limit.
pub record State : Type 0 where
  pub bytes : List ℕ
  pub exceeded : Bool

-- `State::default()`
abbrev pub default : State
default = record { bytes = []; exceeded = false }

pub record Output : Type 0 where
  pub capacity : ℕ
  -- The `Arc`: where the shared state lies.
  pub state : ℕ

-- What every `Arc<Mutex<State>>` of the process points to, and the next place that is free.
pub record Heap : Type 0 where
  pub cell : ℕ → State
  pub next : ℕ

unfoldable pub store : Heap → ℕ → State → Heap
store h p s = record h { cell = λ q. if q == p then s else h.cell q }

-- `Output::new`: a fresh state that only this handle points to.
unfoldable pub new : ℕ → Heap → Output × Heap
unfolding store
new capacity h = (
  record { capacity = capacity; state = h.next },
  record (store h h.next default) { next = suc h.next },
)

unfoldable pub exceeded : Output → Heap → Bool
exceeded o h = (h.cell o.state).exceeded

unfoldable pub contents : Output → Heap → List ℕ
contents o h = (h.cell o.state).bytes

-- `io::Error::other("output limit exceeded")`
pub data IoError : Type 0 where
  output_limit_exceeded : IoError

-- `append`: as much as fits is kept, also by a write that fails.
unfoldable pub append : Output → List ℕ → Heap → Heap × Result IoError ℕ
append o bytes h =
    let state = h.cell o.state in
    let available = wrapping_sub o.capacity (length state.bytes) in
    let count = min available (length bytes) in
    let extended = state.bytes ++ take count bytes in
    if ltb count (length bytes)
    then (store h o.state (record { bytes = extended; exceeded = true }), err output_limit_exceeded)
    else (store h o.state (record state { bytes = extended }), ok count)

-- `StreamError::trap`, as the error of the WASI output stream
pub data StreamError : Type 0 where
  trap : IoError → StreamError

-- `OutputStream::write`
unfoldable pub write : Output → List ℕ → Heap → Heap × Result StreamError (Unit {0})
write o bytes h = let (h', r) = append o bytes h in (h', map_err trap (discard r))

-- `OutputStream::flush`
unfoldable pub flush : Output → Heap → Heap × Result StreamError (Unit {0})
flush o h = (h, ok tt)

-- `OutputStream::check_write`: how much the guest may write next; never nothing.
unfoldable pub check_write : Output → Heap → Result StreamError ℕ
check_write o h = ok (max (wrapping_sub o.capacity (length (h.cell o.state).bytes)) 1)

-- `AsyncWrite::poll_write`, which is always ready
pub data Poll {ℓ} (A : Type ℓ) : Type ℓ where
  ready : A → Poll A
  pending : Poll A

unfoldable pub poll_write : Output → List ℕ → Heap → Heap × Poll (Result IoError ℕ)
poll_write o bytes h = let (h', r) = append o bytes h in (h', ready r)

-- Nothing is buffered.
abbrev pub poll_flush : Output → Heap → Heap × Poll (Result IoError (Unit {0}))
poll_flush o h = (h, ready (ok tt))

abbrev pub poll_shutdown : Output → Heap → Heap × Poll (Result IoError (Unit {0}))
poll_shutdown o h = (h, ready (ok tt))

unfoldable pub is_terminal : Output → Bool
is_terminal o = false

-- `p2_stream` and `async_stream`: a clone copies the capacity and the pointer, never the state.
unfoldable pub p2_stream : Output → Output
p2_stream o = record { capacity = o.capacity; state = o.state }

unfoldable pub async_stream : Output → Output
async_stream o = record { capacity = o.capacity; state = o.state }
