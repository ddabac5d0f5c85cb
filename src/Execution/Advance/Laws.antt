-- ===== src/Execution/Advance/Laws.antt =====
-- What `Execution::advance` of native/javex_nif/src/sandbox.rs answers.
use javex.Base.{
  ℕ, ◌≤◌, ◌≡◌, inl, inr, refl, sym, ap, ◌∙◌, Bool, true, false, Option, none, some, List, String,
  Anyhow, message, Failure, length, take, drop, leb, ◌==◌, Result, ok, err, ensure, arith,
  ok-injective, ok-ne-err, Bool-cases, Result-cases, subst,
}
use javex.Output
use javex.Ipc.{try_from}
use javex.Relay.{any_eq, failure_kinds}
use javex.Sandbox.{World, Text, finish}
use javex.Sandbox.Finish.{IsClean, finish-ok_iff, finish-known}
use javex.Execution.{
  Act, proceed, lift, Provider, Bridge, Execution, Progress, done, pending, check_control,
  from_le_bytes,
}
use javex.Execution.Advance.{
  StateJson, verdict, fetch, exchange, step_once, progress, conclude, advance,
}

-- An act and what follows it succeed together only if each of them does.
pub proceed-eq-ok :
    {W A B : Type 0} (r : W × Result Anyhow A) (next : A → Act W B) {w' : W} {b : B}
    → proceed r next ≡ (w', ok b)
    → (w : W) × (a : A) × (r ≡ (w, ok a)) × (next a w ≡ (w', ok b))
proceed-eq-ok (w, ok a) next e = (w, a, refl, e)
proceed-eq-ok (w, err f) next e = absurd (ok-ne-err (sym (ap (λ r. r.1) e)))

-- A read returns as many bytes as it was asked for.
abbrev pub ReadsWhole : {W : Type 0} → Provider W → Type 0
ReadsWhole {W = W} p =
    (m : p.Memory) (at count : ℕ) (w w' : W) (bytes : List ℕ)
    → p.read_memory m at count w ≡ (w', ok bytes)
    → length bytes ≡ count

module _ {W : Type 0} {p : Provider W} (e : Execution p) where
  verdict_frame : (tag len : ℕ) → verdict e tag len ≡ ok true → tag ≡ 0 → len ≤ e.max_step
  unfolding verdict
  verdict_frame tag len h zero = ground arith

  fetch_frame :
      (b : Bridge p) (tag ptr len result_ptr result_len : ℕ) (readable : Bool) (w w' : W)
      (bytes : List ℕ)
      → ReadsWhole p
      → verdict e tag result_len ≡ ok readable
      → fetch e b tag ptr len result_ptr result_len readable w ≡ (w', ok (0, bytes))
      → length bytes ≤ e.max_step
  unfolding fetch
  fetch_frame b tag ptr len result_ptr result_len false w w' bytes whole judged h =
      let two : ◌≡◌ {A = ℕ} 2 0 = ap (λ r. r.0) (ok-injective (ap (λ r. r.1) h)) in
      absurd (omega (arith, two))
  fetch_frame b tag ptr len result_ptr result_len true w w' bytes whole judged h =
      let (w1, read, found, h1) =
        proceed-eq-ok (p.read_memory b.memory result_ptr result_len w) _ h in
      let (w2, _, _, h2) = proceed-eq-ok (p.call_realloc b.realloc ptr len 1 0 w1) _ h1 in
      let answer = ok-injective (ap (λ r. r.1) h2) in
      let size = whole b.memory result_ptr result_len w w1 read found in
      let bound = verdict_frame tag result_len judged (ap (λ r. r.0) answer) in
      let same : length read ≡ length bytes = ap (λ r. length r.1) answer in
      omega (arith, size, bound, same)

  -- A result with the tag of a state is no longer than a step may be.
  exchange_frame :
      (b : Bridge p) (completion : List ℕ) (len : ℕ) (w w' : W) (bytes : List ℕ)
      → ReadsWhole p
      → exchange e b completion len w ≡ (w', ok (0, bytes))
      → length bytes ≤ e.max_step
  unfolding exchange fetch
  exchange_frame b completion len w w' bytes whole h =
      let (w1, ptr, _, h1) = proceed-eq-ok (p.call_realloc b.realloc 0 0 1 len w) _ h in
      let (w2, _, _, h2) = proceed-eq-ok (p.write_memory b.memory ptr completion w1) _ h1 in
      let (w3, place, _, h3) = proceed-eq-ok (p.call_step b.step ptr len w2) _ h2 in
      let (w4, fields, _, h4) = proceed-eq-ok (p.read_memory b.memory place 12 w3) _ h3 in
      let tag = from_le_bytes (take 4 fields) in
      let result_len = from_le_bytes (take 4 (drop 8 fields)) in
      let (w5, readable, judged, h5) = proceed-eq-ok (lift (verdict e tag result_len) w4) _ h4 in
      fetch_frame b tag ptr len (from_le_bytes (take 4 (drop 4 fields))) result_len readable w5 w'
        bytes whole (ap (λ r. r.1) judged) h5

module _ {G L K M : Type 0} {p : Provider (World G L K M)} (text : Text) (json : StateJson)
    (e : Execution p) where
  -- A state that is handed on was read from bytes that decode, and says that it is neither done nor
  -- beyond the budget of callbacks.
  pub record IsState (bytes : List ℕ) : Type 0 where
    pub state : json.Value
    pub decoded : json.from_slice bytes ≡ ok state
    pub in_budget : json.is_true state "fatal" ≡ false
    pub unfinished : json.is_true state "done" ≡ false

  -- What `advance` may answer through a bridge, with the world that it leaves: the frame of a state,
  -- the whole of stdout, or a failure of a known kind.
  pub data Answers (w : World G L K M) : Result Failure Progress → Type 0 where
    more :
        (bytes : List ℕ)
        → IsClean text e.sandbox w
        → length bytes ≤ e.max_step
        → IsState bytes
        → Answers w (ok (pending bytes))
    last :
        (out : List ℕ)
        → IsClean text e.sandbox w
        → out ≡ Output.contents e.sandbox.stdout w.heap
        → Answers w (ok (done out))
    failure :
        (kind text_of : String) → any_eq kind failure_kinds ≡ true → Answers w (err (kind, text_of))

  progress-Answers :
      (w : World G L K M) (bytes : List ℕ)
      → IsClean text e.sandbox w
      → length bytes ≤ e.max_step
      → Answers w (progress text json e w bytes (json.from_slice bytes))
  unfolding progress any_eq
  progress-Answers w bytes clean fits = elim (Result-cases (json.from_slice bytes)) [
    | inr (error, broken) ↦ rw (broken, progress) (failure "trap" _ refl)
    | inl (state, decoded) ↦ elim (Bool-cases (json.is_true state "fatal")) [
      | inl fatal ↦ rw (decoded, progress, fatal) (failure "callback_limit" _ refl)
      | inr spared ↦ elim (Bool-cases (json.is_true state "done")) [
        | inl over ↦ rw (decoded, progress, spared, over) (last _ clean refl)
        | inr going ↦
            rw (decoded, progress, spared, going)
              (more bytes clean fits (record {
                state = state;
                decoded = decoded;
                in_budget = spared;
                unfinished = going;
              }))
      ]
    ]
  ]

  conclude-Answers :
      (w : World G L K M) (result : Result Anyhow (ℕ × List ℕ))
      → ((bytes : List ℕ) → result ≡ ok (0, bytes) → length bytes ≤ e.max_step)
      → Answers w (conclude text json e w (finish text e.sandbox w result))
  unfolding conclude any_eq
  conclude-Answers w result fits = elim (Result-cases (finish text e.sandbox w result)) [
    | inr ((kind, reason), failed) ↦
        rw (failed, conclude) (failure kind reason (finish-known text e.sandbox w result failed))
    | inl ((tag, bytes), good) ↦
        let (clean, same) = (finish-ok_iff text e.sandbox w result (tag, bytes)).0 good in
        elim (Bool-cases (tag == 2)) [
          | inl two ↦ rw (good, conclude, two) (failure "diagnostic_limit" _ refl)
          | inr other ↦ elim (Bool-cases (tag == 0)) [
            | inr one ↦ rw (good, conclude, other, one) (failure "js_error" _ refl)
            | inl zero_tag ↦
                let is_zero : tag ≡ 0 = ground arith in
                rw (good, conclude, other, zero_tag)
                  (progress-Answers w bytes clean
                    (fits bytes (same ∙ ap (λ t. ok (t, bytes)) is_zero)))
          ]
        ]
  ]

  step_once_frame :
      (b : Bridge p) (completion : List ℕ) (w : World G L K M) (bytes : List ℕ)
      → ReadsWhole p
      → (step_once text json e b completion w).1 ≡ ok (0, bytes)
      → length bytes ≤ e.max_step
  unfolding step_once
  step_once_frame b completion w bytes whole h =
      let all : step_once text json e b completion w
          ≡ ((step_once text json e b completion w).0, ok (0, bytes)) =
        ap (λ r. ((step_once text json e b completion w).0, r)) h in
      let (w1, _, _, h1) = proceed-eq-ok (check_control e.sandbox.control w) _ all in
      let (w2, _, _, h2) =
        proceed-eq-ok
          (lift
            (ensure (leb (length completion) e.max_completion)
              (message "callback completion limit exceeded"))
            w1)
          _ h1 in
      let (w3, len, _, h3) = proceed-eq-ok (lift (try_from (length completion)) w2) _ h2 in
      exchange_frame e b completion len w3 _ bytes whole h3

  pub bridged :
      (b : Bridge p) (completion : List ℕ) (w : World G L K M)
      → e.bridge ≡ some b
      → advance text json e completion w ≡ (
        (step_once text json e b completion w).0,
        conclude text json e (step_once text json e b completion w).0 (
            finish text e.sandbox
              (step_once text json e b completion w).0
              (step_once text json e b completion w).1),
      )
  unfolding advance
  bridged b completion w known =
      ap
        (λ (o : Option (Bridge p)). elim o [
          | none ↦ (w, ok (done (Output.contents e.sandbox.stdout w.heap)))
          | some b ↦
              let (w', result) = step_once text json e b completion w in
              (w', conclude text json e w' (finish text e.sandbox w' result))
        ])
        known

  -- Through a bridge, if reads of the memory are whole, `advance` answers as it may: it hands on a frame
  -- within the limit of a step, or the whole of stdout, and either only if no quota is exceeded by then;
  -- all else is a failure of a kind that the supervisor knows.
  pub advance-Answers :
      (b : Bridge p) (completion : List ℕ) (w : World G L K M)
      → ReadsWhole p
      → e.bridge ≡ some b
      → Answers (advance text json e completion w).0 (advance text json e completion w).1
  advance-Answers b completion w whole known =
      subst (λ r. Answers r.0 r.1) (sym (bridged b completion w known))
        (conclude-Answers _ (step_once text json e b completion w).1
          (λ bytes read. step_once_frame b completion w bytes whole read))
