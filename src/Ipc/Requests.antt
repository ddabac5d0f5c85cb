-- ===== src/Ipc/Requests.antt =====
-- Requests from the BEAM to the supervisor and on to the child (native/javex_nif/src/worker.rs,
-- `request`).
use javex.Base.{
  ℕ, ◌+◌, ◌-◌, ◌≤◌, ◌<◌, ◌≡◌, refl, sym, ap, ◌∙◌, true, List, [], ◌++◌, append_assoc, append-nil,
  length, ok, arith, usize_mod, wrapping_sub, wrapping_sub-eq, >>=-eq-ok, ok-injective, subst,
}
use javex.Ipc.{max_request, max_header, read_frame, Pipe, Parts, request, forward}
use javex.Ipc.Frames.{frame, read_frame-frame, read_frame-ok, write_frame-frame}

-- The four frames of a request.
abbrev pub frames : Parts → List ℕ
frames p = frame p.header ++ (frame p.plugin ++ (frame p.compiled ++ frame p.input))

-- The budgets of a request.
pub record IsBounded (p : Parts) : Type 0 where
  pub head : length p.header ≤ max_header
  pub whole : length p.header + length p.plugin + length p.compiled + length p.input ≤ max_request

-- A request within the budgets is read back whole, and leaves what follows it.
pub request-frames :
    (p : Parts) (rest : List ℕ) → IsBounded p → request (frames p ++ rest) ≡ ok (p, rest)
unfolding request
request-frames p rest b =
    let r = max_request - length p.header in
    rw (
      append_assoc,
      append_assoc,
      append_assoc,
      read_frame-frame p.header (frame p.plugin ++ (frame p.compiled ++ (frame p.input ++ rest)))
          max_header (omega arith) (omega arith) (omega arith),
      wrapping_sub-eq max_request (length p.header) (omega arith) (omega arith),
      read_frame-frame p.plugin (frame p.compiled ++ (frame p.input ++ rest)) r (omega arith)
          (omega arith) (omega arith),
      read_frame-frame p.compiled (frame p.input ++ rest) (r - length p.plugin) (omega arith)
          (omega arith) (omega arith),
      read_frame-frame p.input rest (r - length p.plugin - length p.compiled) (omega arith)
          (omega arith) (omega arith),
    )

-- Every request that is read keeps to the budgets, whatever the stream holds.
pub request-IsBounded :
    (stream rest : List ℕ) (p : Parts) → request stream ≡ ok (p, rest) → IsBounded p
unfolding request
request-IsBounded stream rest p done =
    let (h, got_h, later) = >>=-eq-ok (read_frame stream max_header) _ done in
    let h_budget = spent stream h.0 h.1 max_header h.2 (omega arith) got_h in
    let r = wrapping_sub max_request (length h.0) in
    let left : r ≡ max_request - length h.0 =
      wrapping_sub-eq max_request (length h.0) (omega arith) (omega arith) in
    let (g, got_g, later') = >>=-eq-ok (read_frame h.1 r) _ later in
    let g_budget = spent h.1 g.0 g.1 r g.2 (omega arith) got_g in
    let (c, got_c, later'') = >>=-eq-ok (read_frame g.1 g.2) _ later' in
    let c_budget = spent g.1 c.0 c.1 g.2 c.2 (omega arith) got_c in
    let (i, got_i, same) = >>=-eq-ok (read_frame c.1 c.2) _ later'' in
    let i_budget = spent c.1 i.0 i.1 c.2 i.2 (omega arith) got_i in
    subst IsBounded (ap (λ x. x.0) (ok-injective same))
      (record { head = omega arith; whole = omega arith })
  where
    spent :
        (input bytes rest : List ℕ) (remaining remaining' : ℕ)
        → remaining < usize_mod
        → read_frame input remaining ≡ ok (bytes, rest, remaining')
        → length bytes + remaining' ≡ remaining
    spent input bytes rest remaining remaining' word got =
        (read_frame-ok input bytes rest remaining remaining' word got).4

-- A pipe after more bytes went through.
abbrev sent : Pipe → List ℕ → Pipe
sent pipe bytes = record pipe { bytes = pipe.bytes ++ bytes }

-- The supervisor's writer sends the four frames.
forward-frames :
    (pipe : Pipe) (p : Parts)
    → pipe.is_open ≡ true
    → IsBounded p
    → forward pipe p ≡ ok (sent pipe (frames p))
unfolding forward
forward-frames pipe p is_open b =
    let p' = sent pipe (frame p.header) in
    let p'' = sent p' (frame p.plugin) in
    let p''' = sent p'' (frame p.compiled) in
    rw
      (
        write_frame-frame pipe p.header is_open (omega arith),
        write_frame-frame p' p.plugin is_open (omega arith),
        write_frame-frame p'' p.compiled is_open (omega arith),
        write_frame-frame p''' p.input is_open (omega arith),
      )
      (ap (λ b. ok (record pipe { bytes = b })) (regroup pipe.bytes _ _ _ _))
  where
    regroup : (a b c d e : List ℕ) → (((a ++ b) ++ c) ++ d) ++ e ≡ a ++ (b ++ (c ++ (d ++ e)))
    regroup a b c d e = simp append_assoc

-- Whatever request the supervisor accepts, it passes on through an open pipe, and the child reads the
-- very same parts, with nothing of them left over.
pub request-forward :
    (stream rest : List ℕ) (p : Parts)
    → request stream ≡ ok (p, rest)
    → (pipe : Pipe) × (forward (record { bytes = []; is_open = true }) p ≡ ok pipe)
      × (request pipe.bytes ≡ ok (p, []))
request-forward stream rest p done =
    let b = request-IsBounded stream rest p done in
    (
      record { bytes = frames p; is_open = true },
      forward-frames (record { bytes = []; is_open = true }) p refl b,
      ap request (sym (append-nil (frames p))) ∙ request-frames p [] b,
    )
