-- ===== src/Ipc/Tests.antt =====
-- Runs of the frame protocol.
use javex.Base.{
  ℕ, ◌+◌, ◌≤◌, ◌<◌, ◌≡◌, ◌⊎◌, refl, max, true, List, [], ◌∷◌, ◌++◌, into_bytes, encode_char,
  Failure, message, length, Result, ok, err, arith, wrapping_sub,
}
use javex.Ipc.{
  Json, Pipe, Parts, be_value, from_be_bytes, to_be_bytes, read_exact, read_frame, write_all,
  try_from, write_frame, request, forward, event, response_event, response,
}
use javex.Ipc.Frames.{frame, read_frame-frame, read_frame_over, read_frame-ok}
use javex.Ipc.Requests.{IsBounded, frames, request-frames, request-IsBounded, request-forward}
use javex.Ipc.Responses.{response_event_bounded, response-frames}

program : Unit {0}
unfolding be_value to_be_bytes read_exact read_frame write_all try_from write_frame request forward
    event response_event response into_bytes encode_char wrapping_sub frame
program = tt

abbrev payload : List ℕ
payload = 104 ∷ 105 ∷ []

abbrev pipe : Pipe
pipe = record { bytes = []; is_open = true }

framed :
    write_frame pipe payload
    ≡ ok (record { bytes = 0 ∷ 0 ∷ 0 ∷ 2 ∷ 104 ∷ 105 ∷ []; is_open = true })
unfolding program
framed = refl

truncated : read_frame (0 ∷ 0 ∷ 0 ∷ 2 ∷ 104 ∷ []) 10 ≡ err (message "failed to fill whole buffer")
unfolding program
truncated = refl

read_frame-frame_example : read_frame (frame payload ++ 7 ∷ []) 10 ≡ ok (payload, 7 ∷ [], 8)
read_frame-frame_example =
    read_frame-frame payload (7 ∷ []) 10 (omega arith) (omega arith) (omega arith)

read_frame_over_example :
    read_frame (frame payload ++ 7 ∷ []) 1 ≡ err (message "IPC request limit exceeded")
read_frame_over_example = read_frame_over payload (7 ∷ []) 1 (omega arith) (omega arith)

read_frame-ok_example :
    (size_bytes : List ℕ) × (length size_bytes ≡ 4)
    × (from_be_bytes size_bytes ≡ 2)
    × (0 ∷ 0 ∷ 0 ∷ 2 ∷ 104 ∷ 105 ∷ 7 ∷ [] ≡ size_bytes ++ (payload ++ 7 ∷ []))
    × (2 + 8 ≡ 10)
unfolding program
read_frame-ok_example =
    read_frame-ok (0 ∷ 0 ∷ 0 ∷ 2 ∷ 104 ∷ 105 ∷ 7 ∷ []) payload (7 ∷ []) 10 8 (omega arith) refl

abbrev parts : Parts
parts = record { header = 123 ∷ 125 ∷ []; plugin = 0 ∷ 97 ∷ []; compiled = []; input = payload }

parts-IsBounded : IsBounded parts
parts-IsBounded = record { head = omega arith; whole = omega arith }

request-frames_example : request (frames parts ++ 1 ∷ []) ≡ ok (parts, 1 ∷ [])
request-frames_example = request-frames parts (1 ∷ []) parts-IsBounded

request-IsBounded_example : IsBounded parts
unfolding program
request-IsBounded_example = request-IsBounded (frames parts) [] parts refl

request-forward_example :
    (p : Pipe) × (forward pipe parts ≡ ok p) × (request p.bytes ≡ ok (parts, []))
unfolding program
request-forward_example = request-forward (frames parts) [] parts refl

abbrev long_result : Result Failure (List ℕ)
long_result = ok (1 ∷ 2 ∷ 3 ∷ [])

response_event_bounded_example :
    (((3 ≤ 2) × (response_event long_result 2 ≡ ("ok", 1 ∷ 2 ∷ 3 ∷ [])))
      ⊎ ((2 < 3) × ((response_event long_result 2).0 ≡ "output_limit")))
    × (length (response_event long_result 2).1 ≤ max 2 30)
response_event_bounded_example = response_event_bounded long_result 2

abbrev json : Json
json = record { to_vec = into_bytes; from_slice = λ b. err (message "not read") }

response-frames_example :
    response json pipe long_result 3
    ≡ ok (record pipe { bytes = 0 ∷ 0 ∷ 0 ∷ 2 ∷ 111 ∷ 107 ∷ 0 ∷ 0 ∷ 0 ∷ 3 ∷ 1 ∷ 2 ∷ 3 ∷ [] })
unfolding program
response-frames_example = response-frames json pipe long_result 3 refl (omega arith) (omega arith)
