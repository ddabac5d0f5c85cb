-- ===== src/Ipc.antt =====
-- The framed protocol of native/javex_nif/src/worker.rs: a frame is its length, four bytes big-endian,
-- and its bytes. A stream that is read is the list of the bytes that are still to come; a pipe that is
-- written to may be closed at the other end. JSON is serde_json's, a parameter.
pub mod Frames
pub mod Requests
pub mod Responses
mod Tests
use javex.Base.{
  ℕ, ◌+◌, ◌*◌, ◌/◌, ◌%◌, ◌^◌, Bool, true, false, List, [], ◌∷◌, ◌++◌, String, Anyhow, message,
  length, take, drop, ltb, leb, if◌then◌else◌, Result, ok, err, ensure, ◌>>=◌, ◌>>◌, u32_mod,
  wrapping_sub, into_bytes, Failure,
}

abbrev pub max_request : ℕ
max_request = 64 * 1024 * 1024

abbrev pub max_header : ℕ
max_header = 1024 * 1024

-- `u32::from_be_bytes`
unfoldable pub be_value : ℕ → List ℕ → ℕ
be_value acc [] = acc
be_value acc (b ∷ bs) = be_value (acc * 256 + b) bs

abbrev pub from_be_bytes : List ℕ → ℕ
from_be_bytes = be_value 0

-- `u32::to_be_bytes`
unfoldable pub to_be_bytes : ℕ → List ℕ
to_be_bytes n = (n / 2 ^ 24 % 256) ∷ (n / 2 ^ 16 % 256) ∷ (n / 2 ^ 8 % 256) ∷ (n % 256) ∷ []

-- `Read::read_exact`: the bytes, and what is still to come; a stream that ends early is an error.
unfoldable pub read_exact : ℕ → List ℕ → Result Anyhow (List ℕ × List ℕ)
read_exact n input =
    if leb n (length input)
    then ok (take n input, drop n input)
    else err (message "failed to fill whole buffer")

-- `read_frame` once the length is known.
abbrev pub read_body : ℕ → List ℕ → ℕ → Result Anyhow (List ℕ × List ℕ × ℕ)
read_body size stream remaining = do
  ensure (leb size remaining) (message "IPC request limit exceeded")
  (bytes, rest) ← read_exact size stream
  ok (bytes, rest, wrapping_sub remaining size)

-- `read_frame`: the bytes, what is still to come, and what is left of the budget.
unfoldable pub read_frame : List ℕ → ℕ → Result Anyhow (List ℕ × List ℕ × ℕ)
read_frame input remaining = do
  (size_bytes, stream) ← read_exact 4 input
  read_body (from_be_bytes size_bytes) stream remaining

-- The write end of a pipe: what went through, and whether somebody still reads.
pub record Pipe : Type 0 where
  pub bytes : List ℕ
  pub is_open : Bool

-- `Write::write_all`
unfoldable pub write_all : Pipe → List ℕ → Result Anyhow Pipe
write_all p bytes =
    if p.is_open then ok (record p { bytes = p.bytes ++ bytes }) else err (message "Broken pipe")

-- `u32::try_from(usize)`
unfoldable pub try_from : ℕ → Result Anyhow ℕ
try_from n =
    if ltb n u32_mod then ok n else err (message "out of range integral type conversion attempted")

unfoldable pub write_frame : Pipe → List ℕ → Result Anyhow Pipe
write_frame p bytes = do
  size ← try_from (length bytes)
  p' ← write_all p (to_be_bytes size)
  write_all p' bytes

-- The four parts of a request: `[Vec<u8>; 4]`.
pub record Parts : Type 0 where
  pub header : List ℕ
  pub plugin : List ℕ
  pub compiled : List ℕ
  pub input : List ℕ

-- `request`: the header has a budget of its own, and the rest shares what it leaves of 64 MiB.
unfoldable pub request : List ℕ → Result Anyhow (Parts × List ℕ)
request stream = do
  (header, stream', _) ← read_frame stream max_header
  let remaining = wrapping_sub max_request (length header)
  (plugin, stream'', remaining') ← read_frame stream' remaining
  (compiled, stream''', remaining'') ← read_frame stream'' remaining'
  (input, rest, _) ← read_frame stream''' remaining''
  ok (record { header = header; plugin = plugin; compiled = compiled; input = input }, rest)

-- What the supervisor's writer thread sends to the child first:
-- `request.iter().try_for_each(|bytes| write_frame(&mut child_input, bytes))`
unfoldable pub forward : Pipe → Parts → Result Anyhow Pipe
forward p parts = do
  p' ← write_frame p parts.header
  p'' ← write_frame p' parts.plugin
  p''' ← write_frame p'' parts.compiled
  write_frame p''' parts.input

-- `serde_json` on the kinds of events: `to_vec` of a text, and `from_slice` into one.
pub record Json : Type 0 where
  pub to_vec : String → List ℕ
  pub from_slice : List ℕ → Result Anyhow String

abbrev pub spoken : Result Failure (List ℕ) → String × List ℕ
spoken (ok bytes) = ("ok", bytes)
spoken (err (kind, text)) = (kind, into_bytes text)

-- What `response` sends: the kind and the bytes, or that there are too many of them.
unfoldable pub response_event : Result Failure (List ℕ) → ℕ → String × List ℕ
response_event result maximum =
    let (kind, bytes) = spoken result in
    if ltb maximum (length bytes)
    then ("output_limit", into_bytes "worker response limit exceeded")
    else (kind, bytes)

module _ (json : Json) where
  unfoldable pub event : Pipe → String → List ℕ → Result Anyhow Pipe
  event p kind bytes = do p' ← write_frame p (json.to_vec kind); write_frame p' bytes

  unfoldable pub response : Pipe → Result Failure (List ℕ) → ℕ → Result Anyhow Pipe
  response p result maximum =
      let (kind, bytes) = response_event result maximum in event p kind bytes
