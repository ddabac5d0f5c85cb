-- ===== src/Child/Loop.antt =====
-- The loop of `child` in native/javex_nif/src/worker.rs ends, and what it sends is what the supervisor lets
-- through.
use javex.Base.{
  ℕ, zero, suc, ◌≤◌, ◌<◌, ◌≡◌, refl, sym, ap, ◌∙◌, true, Option, none, some, inl, inr, List, [],
  ◌∷◌, ◌++◌, append_assoc, append-nil, Failure, Result, ok, err, length, length-append, arith, All,
  Result-cases,
}
use javex.Ipc.{Json, Pipe, max_request, read_frame, event}
use javex.Ipc.Frames.{frame, read_frame-ok}
use javex.Relay.{any_eq, failure_kinds}
use javex.Relay.Traffic.{Event, encoded, event-ok}
use javex.Sandbox.{World, Text}
use javex.Execution.{Provider, Bridge, Execution, Progress}
use javex.Execution.Advance.{StateJson, advance}
use javex.Execution.Advance.Laws.{ReadsWhole, Answers, more, last, failure, advance-Answers}
use javex.Child.{Turn, ends, waits, listen, tell, turn, serve}

-- The events of states.
abbrev pub callbacks : List (List ℕ) → List Event
callbacks [] = []
callbacks (b ∷ bs) = ("callbacks", b) ∷ callbacks bs

-- A failure is of a kind that the supervisor knows.
abbrev pub IsKnown : Result Failure (List ℕ) → Type 0
IsKnown (ok bytes) = Unit {0}
IsKnown (err (kind, reason)) = any_eq kind failure_kinds ≡ true

encoded_append :
    (kinds : Json) (xs ys : List (List ℕ))
    → encoded kinds (callbacks (xs ++ ys))
      ≡ encoded kinds (callbacks xs) ++ encoded kinds (callbacks ys)
encoded_append kinds [] ys = refl
encoded_append kinds (b ∷ xs) ys =
    let header = frame (kinds.to_vec "callbacks") in
    let front = encoded kinds (callbacks xs) in
    let back = encoded kinds (callbacks ys) in
    ap (λ z. header ++ (frame b ++ z)) (encoded_append kinds xs ys)
    ∙ sym (
        append_assoc header (frame b ++ front) back
        ∙ ap (λ z. header ++ z) (append_assoc (frame b) front back))

module _ (text : Text) (kinds : Json) {G L K M : Type 0} {p : Provider (World G L K M)}
    (json : StateJson) (e : Execution p) where
  -- What went through the pipe are events of states, none of them longer than a step may be.
  pub record Spoke (pipe pipe' : Pipe) : Type 0 where
    pub states : List (List ℕ)
    pub written : pipe'.bytes ≡ pipe.bytes ++ encoded kinds (callbacks states)
    pub small : All (λ s. length s ≤ e.max_step) states

  silent : (pipe : Pipe) → Spoke pipe pipe
  silent pipe = record { states = []; written = sym (append-nil pipe.bytes); small = tt }

  All_append :
      (xs ys : List (List ℕ))
      → All (λ s. length s ≤ e.max_step) xs
      → All (λ s. length s ≤ e.max_step) ys
      → All (λ s. length s ≤ e.max_step) (xs ++ ys)
  All_append [] ys a b = b
  All_append (x ∷ xs) ys a b = (a.0, All_append xs ys a.1 b)

  Spoke-trans : (a b c : Pipe) → Spoke a b → Spoke b c → Spoke a c
  Spoke-trans a b c first second = record {
    states = first.states ++ second.states;
    written =
        second.written
        ∙ ap (λ z. z ++ encoded kinds (callbacks second.states)) first.written
        ∙ append_assoc a.bytes (encoded kinds (callbacks first.states))
            (encoded kinds (callbacks second.states))
        ∙ ap (λ z. a.bytes ++ z) (sym (encoded_append kinds first.states second.states));
    small = All_append first.states second.states first.small second.small;
  }

  -- A pass either ends the loop with a known result, or takes something off stdin.
  abbrev pub Turns : Pipe → List ℕ → Turn → Type 0
  Turns pipe stdin (ends pipe' result) = Spoke pipe pipe' × IsKnown result
  Turns pipe stdin (waits pipe' completion stdin') =
      Spoke pipe pipe' × (length stdin' < length stdin)

  listen-Turns :
      (pipe pipe' : Pipe) (stdin : List ℕ)
      → Spoke pipe pipe'
      → Turns pipe stdin (listen text kinds pipe' (read_frame stdin max_request))
  unfolding listen any_eq
  listen-Turns pipe pipe' stdin spoke = elim (Result-cases (read_frame stdin max_request)) [
    | inr (f, ended) ↦ rw (ended, listen) (spoke, refl)
    | inl ((completion, rest, left), read) ↦
        let (size, four, _, whole, _) =
          read_frame-ok stdin completion rest max_request left (omega arith) read in
        rw (read, listen)
          (
            spoke,
            omega (
              arith,
              four,
              ap length whole,
              length-append size (completion ++ rest),
              length-append completion rest,
            ),
          )
  ]

  tell-Turns :
      (pipe : Pipe) (stdin bytes : List ℕ)
      → length bytes ≤ e.max_step
      → Turns pipe stdin (tell text kinds pipe stdin (event kinds pipe "callbacks" bytes))
  unfolding tell any_eq
  tell-Turns pipe stdin bytes fits = elim (Result-cases (event kinds pipe "callbacks" bytes)) [
    | inr (f, broken) ↦ rw (broken, tell) (silent pipe, refl)
    | inl (pipe', sent) ↦
        rw (sent, tell)
          (listen-Turns pipe pipe' stdin (record {
            states = bytes ∷ [];
            written =
                (event-ok kinds pipe pipe' "callbacks" bytes sent).0
                ∙ ap (λ z. pipe.bytes ++ (frame (kinds.to_vec "callbacks") ++ z))
                    (sym (append-nil (frame bytes)));
            small = (fits, tt);
          }))
  ]

  turn-Turns :
      (w : World G L K M) (pipe : Pipe) (stdin : List ℕ) (answer : Result Failure Progress)
      → Answers text json e w answer
      → Turns pipe stdin (turn text kinds pipe stdin answer)
  unfolding turn
  turn-Turns w pipe stdin _ (more bytes clean fits state) = tell-Turns pipe stdin bytes fits
  turn-Turns w pipe stdin _ (last out clean whole) = (silent pipe, tt)
  turn-Turns w pipe stdin _ (failure kind reason known) = (silent pipe, known)

  -- What the loop leaves, if it ends: states within their limit in the pipe, and a known result.
  abbrev pub Serves : Pipe → Option (World G L K M × Pipe × Result Failure (List ℕ)) → Type 0
  Serves pipe none = ⊥
  Serves pipe (some (w, pipe', result)) = Spoke pipe pipe' × IsKnown result

  Serves-trans :
      (a b : Pipe) (o : Option (World G L K M × Pipe × Result Failure (List ℕ)))
      → Spoke a b
      → Serves b o
      → Serves a o
  Serves-trans a b none spoke never = never
  Serves-trans a b (some (w, c, r)) spoke served = (Spoke-trans a b c spoke served.0, served.1)

  module _ (b : Bridge p) (bridged : e.bridge ≡ some b) (whole : ReadsWhole p) where
    -- Through a bridge, if reads of the memory are whole, the loop ends: more passes than stdin has
    -- bytes are enough. All that it sends are states, none longer than a step may be, and a failure
    -- has a kind that the supervisor knows.
    pub serve-Serves :
        (n : ℕ) (completion : List ℕ) (w : World G L K M) (stdin : List ℕ) (pipe : Pipe)
        → length stdin < n
        → Serves pipe (serve text kinds json e n completion w stdin pipe)
    unfolding serve
    serve-Serves zero completion w stdin pipe few = absurd (omega (arith, few))
    serve-Serves (suc n) completion w stdin pipe few =
        let answer = advance text json e completion w in
        after (turn text kinds pipe stdin answer.1)
          (turn-Turns answer.0 pipe stdin answer.1
            (advance-Answers text json e b completion w whole bridged))
          (λ completion' stdin' pipe' less.
            serve-Serves n completion' answer.0 stdin' pipe' (omega (arith, few, less)))
      where
        after :
            (t : Turn)
            → Turns pipe stdin t
            → ((completion' stdin' : List ℕ) (pipe' : Pipe)
                → length stdin' < length stdin
                → Serves pipe' (
                    serve text kinds json e n completion'
                      (advance text json e completion w).0
                      stdin'
                      pipe'))
            → Serves pipe (elim t [
              | ends pipe' result ↦ some ((advance text json e completion w).0, pipe', result)
              | waits pipe' completion' stdin' ↦
                  serve text kinds json e n completion'
                    (advance text json e completion w).0
                    stdin'
                    pipe'
            ])
        after (ends pipe' result) good on = good
        after (waits pipe' completion' stdin') (spoke, less) on =
            Serves-trans pipe pipe' _ spoke (on completion' stdin' pipe' less)
