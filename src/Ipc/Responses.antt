-- ===== src/Ipc/Responses.antt =====
-- The child's response (native/javex_nif/src/worker.rs, `response`).
use javex.Base.{
  ℕ, ◌≤◌, ◌<◌, ◌≡◌, ◌⊎◌, inl, inr, refl, ap, true, List, ◌++◌, append_assoc, into_bytes, Failure,
  length, ltb, ltb→le, ltb→lt, Bool-cases, Result, ok, arith, u32_mod, max,
}
use javex.Ipc.{Json, Pipe, spoken, response_event, response, event}
use javex.Ipc.Frames.{frame, write_frame-frame}

notice : length (into_bytes "worker response limit exceeded") ≡ 30
unfolding into_bytes
notice = refl

-- A result within the maximum is sent as it is, with its kind; any other is replaced by a notice of
-- thirty bytes under the kind of an exceeded output. So no response is longer than the maximum and the
-- notice.
pub response_event_bounded :
    (result : Result Failure (List ℕ)) (maximum : ℕ)
    → (((length (spoken result).1 ≤ maximum) × (response_event result maximum ≡ spoken result))
        ⊎ ((maximum < length (spoken result).1)
            × ((response_event result maximum).0 ≡ "output_limit")))
      × (length (response_event result maximum).1 ≤ max maximum 30)
unfolding response_event
response_event_bounded result maximum = elim (Bool-cases (ltb maximum (length (spoken result).1))) [
  | inl over ↦ rw over (inr (ltb→lt maximum _ over, refl), rw notice (omega arith))
  | inr within ↦
      let fits = ltb→le maximum (length (spoken result).1) within in
      rw within (inl (fits, refl), omega (arith, fits))
]

-- A response goes through an open pipe as two frames, the kind and the bytes.
pub response-frames :
    (json : Json) (pipe : Pipe) (result : Result Failure (List ℕ)) (maximum : ℕ)
    → pipe.is_open ≡ true
    → maximum < u32_mod
    → length (json.to_vec (response_event result maximum).0) < u32_mod
    → response json pipe result maximum
      ≡ ok (record pipe {
        bytes =
            pipe.bytes
            ++ (frame (json.to_vec (response_event result maximum).0)
                ++ frame (response_event result maximum).1);
      })
unfolding response event
response-frames json pipe result maximum is_open word short =
    let k = (response_event result maximum).0 in
    let b = (response_event result maximum).1 in
    let h = json.to_vec k in
    rw
      (
        write_frame-frame pipe h is_open short,
        write_frame-frame (record pipe { bytes = pipe.bytes ++ frame h }) b is_open
            (omega (arith, (response_event_bounded result maximum).1)),
      )
      (ap (λ x. ok (record pipe { bytes = x })) (append_assoc pipe.bytes (frame h) (frame b)))
