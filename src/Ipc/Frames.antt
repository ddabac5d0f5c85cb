-- ===== src/Ipc/Frames.antt =====
-- Reading what was written, and what a read may take (native/javex_nif/src/worker.rs, `read_frame`
-- and `write_frame`).
use javex.Base.{
  ℕ, ◌+◌, ◌-◌, ◌≤◌, ◌<◌, ◌≡◌, refl, sym, ap, ap₂, ◌∙◌, true, false, List, ◌++◌, append_assoc,
  Anyhow, message, length, take, drop, ltb, leb, Result, ok, err, arith, u32_mod, usize_mod,
  wrapping_sub-eq, length-append, take-length-append, drop-length-append, take-append-drop,
  length-take, le→leb, lt→ltb, Bool-cases, inl, inr, >>=-eq-ok, ensure-eq-ok, ok-injective, ltb→lt,
  leb→le, ensure,
}
use javex.Ipc.{
  be_value, from_be_bytes, to_be_bytes, read_exact, read_body, read_frame, Pipe, write_all,
  try_from, write_frame,
}

-- The bytes of a frame.
unfoldable pub frame : List ℕ → List ℕ
frame bytes = to_be_bytes (length bytes) ++ bytes

length-to_be_bytes : (n : ℕ) → length (to_be_bytes n) ≡ 4
unfolding to_be_bytes
length-to_be_bytes n = refl

from_be_bytes-to_be_bytes : (n : ℕ) → n < u32_mod → from_be_bytes (to_be_bytes n) ≡ n
unfolding be_value to_be_bytes
from_be_bytes-to_be_bytes n h = omega arith

read_exact-append : (xs ys : List ℕ) → read_exact (length xs) (xs ++ ys) ≡ ok (xs, ys)
unfolding read_exact
read_exact-append xs ys = rw (
  le→leb (length xs) (length (xs ++ ys)) (omega (arith, length-append xs ys)),
  take-length-append,
  drop-length-append,
)

-- The length of a frame, read back.
read_size :
    (bytes rest : List ℕ)
    → read_exact 4 (frame bytes ++ rest) ≡ ok (to_be_bytes (length bytes), bytes ++ rest)
unfolding to_be_bytes frame
read_size bytes rest =
    rw (append_assoc) (read_exact-append (to_be_bytes (length bytes)) (bytes ++ rest))

-- A frame within the budget is read back whole, whatever follows it, and costs its length.
pub read_frame-frame :
    (bytes rest : List ℕ) (remaining : ℕ)
    → length bytes < u32_mod
    → length bytes ≤ remaining
    → remaining < usize_mod
    → read_frame (frame bytes ++ rest) remaining ≡ ok (bytes, rest, remaining - length bytes)
unfolding read_frame
read_frame-frame bytes rest remaining small fits word = rw (
  read_size,
  from_be_bytes-to_be_bytes (length bytes) small,
  le→leb (length bytes) remaining fits,
  read_exact-append,
  wrapping_sub-eq remaining (length bytes) word fits,
)

-- A frame beyond the budget is refused before its bytes are read.
pub read_frame_over :
    (bytes rest : List ℕ) (remaining : ℕ)
    → length bytes < u32_mod
    → remaining < length bytes
    → read_frame (frame bytes ++ rest) remaining ≡ err (message "IPC request limit exceeded")
unfolding read_frame
read_frame_over bytes rest remaining small over =
    let refused : leb (length bytes) remaining ≡ false = ground arith in
    rw (read_size, from_be_bytes-to_be_bytes (length bytes) small, refused)

-- A frame below 4 GiB goes through an open pipe whole.
pub write_frame-frame :
    (p : Pipe) (bytes : List ℕ)
    → p.is_open ≡ true
    → length bytes < u32_mod
    → write_frame p bytes ≡ ok (record p { bytes = p.bytes ++ frame bytes })
unfolding write_frame write_all try_from frame
write_frame-frame p bytes is_open small =
    rw (lt→ltb (length bytes) u32_mod small, is_open)
      (ap (λ b. ok (record { bytes = b; is_open = true }))
        (append_assoc p.bytes (to_be_bytes (length bytes)) bytes))

read_exact-ok :
    (n : ℕ) (input bytes rest : List ℕ)
    → read_exact n input ≡ ok (bytes, rest)
    → (length bytes ≡ n) × (input ≡ bytes ++ rest)
unfolding read_exact
read_exact-ok n input bytes rest done = elim (Bool-cases (leb n (length input))) [
  | inl enough ↦
      let front : take n input ≡ bytes = first (rw enough at done) in
      let back : drop n input ≡ rest = second (rw enough at done) in
      (
        ap length (sym front) ∙ length-take n input ∙ omega (arith, leb→le n (length input) enough),
        sym (take-append-drop n input) ∙ ap₂ ◌++◌ front back,
      )
  | inr short ↦ absurd (never (rw short at done))
]
  where
    first :
        {a b c d : List ℕ}
        → ◌≡◌ {A = Result Anyhow (List ℕ × List ℕ)} (ok (a, b)) (ok (c, d))
        → a ≡ c
    first e = cc

    second :
        {a b c d : List ℕ}
        → ◌≡◌ {A = Result Anyhow (List ℕ × List ℕ)} (ok (a, b)) (ok (c, d))
        → b ≡ d
    second e = cc

    never :
        {e : Anyhow} {c : List ℕ × List ℕ}
        → ◌≡◌ {A = Result Anyhow (List ℕ × List ℕ)} (err e) (ok c)
        → ⊥
    never e = cc

ok-triple :
    {a c : List ℕ} {b d : List ℕ} {m n : ℕ}
    → ◌≡◌ {A = Result Anyhow (List ℕ × List ℕ × ℕ)} (ok (a, b, m)) (ok (c, d, n))
    → (a ≡ c) × (b ≡ d) × (m ≡ n)
ok-triple e = (cc, cc, cc)

-- The last steps of `read_frame`, after the length `size` was read.
read_body-ok :
    (size : ℕ) (stream bytes rest : List ℕ) (remaining remaining' : ℕ)
    → remaining < usize_mod
    → read_body size stream remaining ≡ ok (bytes, rest, remaining')
    → (size ≡ length bytes) × (stream ≡ bytes ++ rest) × (length bytes + remaining' ≡ remaining)
read_body-ok size stream bytes rest remaining remaining' word done =
    let (u, within, later) = >>=-eq-ok (ensure (leb size remaining) _) _ done in
    let (b, got, same) = >>=-eq-ok (read_exact size stream) _ later in
    let (len, split) = read_exact-ok size stream b.0 b.1 got in
    let (front, back, left) = ok-triple same in
    let fits : size ≤ remaining = leb→le size remaining (ensure-eq-ok _ _ within) in
    let len' : length b.0 ≡ length bytes = ap length front in
    (
      sym len ∙ len',
      split ∙ ap₂ ◌++◌ front back,
      omega (arith, left, len, len', fits, wrapping_sub-eq remaining size word fits),
    )

-- Whatever the stream holds, with a budget below 2^64, a frame that is read takes four bytes and
-- its payload off the stream, the payload has the length that those bytes announce, and exactly
-- that is taken off the budget.
pub read_frame-ok :
    (input bytes rest : List ℕ) (remaining remaining' : ℕ)
    → remaining < usize_mod
    → read_frame input remaining ≡ ok (bytes, rest, remaining')
    → (size_bytes : List ℕ) × (length size_bytes ≡ 4)
      × (from_be_bytes size_bytes ≡ length bytes)
      × (input ≡ size_bytes ++ (bytes ++ rest))
      × (length bytes + remaining' ≡ remaining)
unfolding read_frame
read_frame-ok input bytes rest remaining remaining' word done =
    let (r, got, later) = >>=-eq-ok (read_exact 4 input) _ done in
    let (four, split) = read_exact-ok 4 input r.0 r.1 got in
    let (size, body, budget) =
      read_body-ok (from_be_bytes r.0) r.1 bytes rest remaining remaining' word later in
    (r.0, four, size, split ∙ ap (◌++◌ r.0) body, budget)

pub length-frame : (bytes : List ℕ) → length (frame bytes) ≡ length bytes + 4
unfolding frame to_be_bytes
length-frame bytes = omega arith

-- A write that succeeds appended one frame, below 4 GiB, to an open pipe.
pub write_frame-ok :
    (p p' : Pipe) (bytes : List ℕ)
    → write_frame p bytes ≡ ok p'
    → (length bytes < u32_mod)
      × (p.is_open ≡ true)
      × (p'.is_open ≡ true)
      × (p'.bytes ≡ p.bytes ++ frame bytes)
unfolding write_frame write_all try_from
write_frame-ok p p' bytes done = elim (Bool-cases p.is_open) [
  | inr shut ↦ ground arith
  | inl is_open ↦ elim (Bool-cases (ltb (length bytes) u32_mod)) [
    | inr large ↦ ground arith
    | inl small ↦
        let size = ltb→lt (length bytes) u32_mod small in
        let same = ok-injective (sym (write_frame-frame p bytes is_open size) ∙ done) in
        (
          size,
          is_open,
          ap (λ (q : Pipe). q.is_open) (sym same) ∙ is_open,
          ap (λ (q : Pipe). q.bytes) (sym same),
        )
  ]
]
