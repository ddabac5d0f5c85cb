-- ===== src/Child/Operate/Output.antt =====
-- All that the child writes to stdout (native/javex_nif/src/worker.rs), in the terms of the supervisor that
-- reads it.
use javex.Base.{
  ℕ, ◌≤◌, ◌<◌, ◌≡◌, ◌⊎◌, refl, sym, ap, ◌∙◌, subst, true, false, Bool-cases, Option, none, some,
  inl, inr, List, [], ◌∷◌, ◌++◌, append_assoc, append-nil, String, str_eq, eq_iff, Anyhow, Failure,
  Result, Result-cases, ok, err, length, All, max,
}
use javex.Budgets.{callback_request_limit}
use javex.Control.{Control, Flags}
use javex.Control
use javex.Cache.{Panic}
use javex.Ipc.{Json, Pipe, Parts, spoken, response_event, response}
use javex.Ipc.Frames.{frame}
use javex.Ipc.Responses.{response_event_bounded}
use javex.Relay.{any_eq, failure_kinds, maximum_for}
use javex.Relay.Traffic.{Event, encoded, event-ok, IsAdmitted, IsComplete}
use javex.Supervisor.{Request, plan}
use javex.Execution.Advance.Laws.{ReadsWhole}
use javex.Compiler.Compile.{Shared}
use javex.Child.Loop.{callbacks, IsKnown}
use javex.Child.Operate.{Backend, Outcome, operate, respond, answer_request}
use javex.Child.Operate.Ends.{Said, Concludes, operate-Concludes}

-- A kind that ends a conversation, and that the supervisor knows.
abbrev pub IsFinal : String → Type 0
IsFinal kind =
    (str_eq kind "callbacks" ≡ false)
    × ((str_eq kind "ok" ≡ true) ⊎ (any_eq kind failure_kinds ≡ true))

known-IsFinal : (kind : String) → any_eq kind failure_kinds ≡ true → IsFinal kind
unfolding any_eq
known-IsFinal kind known = elim (Bool-cases (str_eq kind "callbacks")) [
  | inr other ↦ (other, inr known)
  | inl same ↦
      let clash : any_eq "callbacks" failure_kinds ≡ true =
        subst (λ k. any_eq k failure_kinds ≡ true) ((eq_iff kind "callbacks").0 same) known in
      absurd cc
]

spoken-IsFinal : (result : Result Failure (List ℕ)) → IsKnown result → IsFinal (spoken result).0
spoken-IsFinal (ok bytes) known = (refl, inl refl)
spoken-IsFinal (err (kind, reason)) known = known-IsFinal kind known

response-IsFinal :
    (result : Result Failure (List ℕ)) (maximum : ℕ)
    → IsKnown result
    → IsFinal (response_event result maximum).0
unfolding any_eq
response-IsFinal result maximum known = elim (response_event_bounded result maximum).0 [
  | inl (fits, same) ↦ subst (λ (e : Event). IsFinal e.0) (sym same) (spoken-IsFinal result known)
  | inr (over, limited) ↦ subst IsFinal (sym limited) (known-IsFinal "output_limit" refl)
]

-- The events of a child that answered a request: states that the supervisor of the request admits, and
-- then one final event of bounded length.
pub record Speech (kinds : Json) (request : Request) (maximum : ℕ) (pipe pipe' : Pipe)
    : Type 0 where
  pub states : List (List ℕ)
  pub final : Event
  pub written : pipe'.bytes ≡ pipe.bytes ++ encoded kinds (callbacks states ++ final ∷ [])
  pub complete : IsComplete (callbacks states ++ final ∷ [])
  pub admitted : All (IsAdmitted (plan request).maxima) (callbacks states)
  pub is_final : IsFinal final.0
  pub bounded : length final.1 ≤ max maximum 30

encoded-append :
    (kinds : Json) (xs ys : List Event)
    → encoded kinds (xs ++ ys) ≡ encoded kinds xs ++ encoded kinds ys
encoded-append kinds [] ys = refl
encoded-append kinds ((k, b) ∷ xs) ys =
    let header = frame (kinds.to_vec k) in
    ap (λ z. header ++ (frame b ++ z)) (encoded-append kinds xs ys)
    ∙ sym (
        append_assoc header (frame b ++ encoded kinds xs) (encoded kinds ys)
        ∙ ap (λ z. header ++ z) (append_assoc (frame b) (encoded kinds xs) (encoded kinds ys)))

callbacks-IsComplete :
    (states : List (List ℕ)) (final : Event)
    → str_eq final.0 "callbacks" ≡ false
    → IsComplete (callbacks states ++ final ∷ [])
callbacks-IsComplete [] final last = last
callbacks-IsComplete (s ∷ []) final last = (refl, last)
callbacks-IsComplete (s ∷ t ∷ states) final last =
    (refl, callbacks-IsComplete (t ∷ states) final last)

callbacks-IsAdmitted :
    (request : Request) (states : List (List ℕ))
    → All (λ s. length s ≤ callback_request_limit request.limits) states
    → All (IsAdmitted (plan request).maxima) (callbacks states)
unfolding plan maximum_for
callbacks-IsAdmitted request [] small = tt
callbacks-IsAdmitted request (s ∷ states) (fits, small) =
    ((callback_request_limit request.limits, refl, fits), callbacks-IsAdmitted request states small)

Said-Speech :
    (kinds : Json) (request : Request) (maximum : ℕ) (pipe pipe' pipe'' : Pipe)
    (result : Result Failure (List ℕ))
    → Said kinds request.limits pipe pipe'
    → IsKnown result
    → response kinds pipe' result maximum ≡ ok pipe''
    → Speech kinds request maximum pipe pipe''
unfolding response
Said-Speech kinds request maximum pipe pipe' pipe'' result said known sent =
    let final = response_event result maximum in
    let is_final = response-IsFinal result maximum known in
    let last = (event-ok kinds pipe' pipe'' final.0 final.1 sent).0 in
    record {
      states = said.states;
      final = final;
      written =
          last
          ∙ ap (λ z. z ++ (frame (kinds.to_vec final.0) ++ frame final.1)) said.written
          ∙ append_assoc pipe.bytes (encoded kinds (callbacks said.states))
              (frame (kinds.to_vec final.0) ++ frame final.1)
          ∙ ap
              (λ z.
                pipe.bytes
                ++ (encoded kinds (callbacks said.states) ++ (frame (kinds.to_vec final.0) ++ z)))
              (sym (append-nil (frame final.1)))
          ∙ ap (λ z. pipe.bytes ++ z)
              (sym (encoded-append kinds (callbacks said.states) (final ∷ [])));
      complete = callbacks-IsComplete said.states final is_final.0;
      admitted = callbacks-IsAdmitted request said.states said.small;
      is_final = is_final;
      bounded = (response_event_bounded result maximum).1;
    }

module _ {H Engine K M : Type 0} (backend : Backend H Engine K M)
    (whole : ReadsWhole backend.tools.guest) where
  open backend use {kinds, header_of}

  -- What the child may come to: an answer, of which all that went to stdout is a speech that the
  -- supervisor of the same request lets through up to its last event.
  abbrev pub Answers : List ℕ → ℕ → Pipe → Option (Result Panic (Result Anyhow Pipe)) → Type 0
  Answers header maximum pipe none = ⊥
  Answers header maximum pipe (some (err panic)) = Unit {0}
  Answers header maximum pipe (some (ok (err e))) = Unit {0}
  Answers header maximum pipe (some (ok (ok pipe'))) =
      (request : Request) × (header_of header ≡ ok request)
      × Speech kinds request maximum pipe pipe'

  respond-Answers :
      (header : List ℕ) (request : Request) (maximum : ℕ) (pipe : Pipe) (o : Outcome backend)
      → header_of header ≡ ok request
      → Concludes backend whole request.limits pipe o
      → Answers header maximum pipe (respond backend maximum o)
  respond-Answers header request maximum pipe none parsed never = never
  respond-Answers header request maximum pipe (some (err panic)) parsed c = tt
  respond-Answers header request maximum pipe (some (ok (pipe', result))) parsed (said, known) =
      sent (response kinds pipe' result maximum) refl
    where
      sent :
          (r : Result Anyhow Pipe)
          → response kinds pipe' result maximum ≡ r
          → Answers header maximum pipe (some (ok r))
      sent (err e) h = tt
      sent (ok pipe'') h =
          (request, parsed, Said-Speech kinds request maximum pipe pipe' pipe'' result said known h)

  -- If reads of the memory are whole, the child comes to an end once it has a request, with more passes
  -- than stdin has bytes. If it ends well, all that it wrote are states, each admitted by the
  -- supervisor of the same request, and then one event of another kind that the supervisor knows,
  -- no longer than the maximum or a notice of thirty bytes.
  pub answer_request-Answers :
      (n : ℕ) (parts : Parts) (timeout maximum : ℕ) (shared : Shared H Engine K M) (stdin : List ℕ)
      (pipe : Pipe)
      → length stdin < n
      → Answers parts.header maximum pipe
          (answer_request backend n parts timeout maximum shared stdin pipe)
  unfolding answer_request
  answer_request-Answers n parts timeout maximum shared stdin pipe few =
      elim (Result-cases (header_of parts.header)) [
        | inr (e, bad) ↦ rw (answer_request, bad) tt
        | inl (request, parsed) ↦
            elim (Result-cases (Control.new timeout shared.host.now shared.host.flags)) [
              | inr (e, refused) ↦ rw (answer_request, parsed, refused) tt
              | inl ((control, flags), made) ↦
                  let shared' = record shared { host = record shared.host { flags = flags } } in
                  rw (answer_request, parsed, made)
                    (respond-Answers parts.header request maximum pipe
                      (operate backend n request parts control shared' stdin pipe) parsed
                      (operate-Concludes backend whole n request parts control shared' stdin pipe
                        few))
            ]
      ]
