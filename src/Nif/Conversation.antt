-- ===== src/Nif/Conversation.antt =====
-- A conversation through the slot of native/javex_nif/src/lib.rs has one final reply at most.
use javex.Base.{
  ℕ, ◌≡◌, refl, sym, ap, Bool, true, false, Option, none, some, inl, inr, List, [], ◌∷◌, Failure,
  Result, ok, err, length, Bool-cases, All, subst, arith,
}
use javex.Sandbox.{World, Text}
use javex.Execution.{Provider, Execution, Progress, done, pending}
use javex.Execution.Advance.{StateJson, advance}
use javex.Nif.{
  NifError, bad_arg, Reply, replied_ok, replied_continue, replied_error, Slot, binary, settle,
  advance_slot,
}

abbrev pub IsRefused : Result NifError Reply → Type 0
IsRefused r = r ≡ err bad_arg

-- The replies of a conversation: after a final one there are refusals only.
abbrev pub Talks : List (Result NifError Reply) → Type 0
Talks [] = Unit {0}
Talks (err bad_arg ∷ replies) = Talks replies
Talks (ok (replied_continue bytes) ∷ replies) = Talks replies
Talks (ok (replied_ok bytes) ∷ replies) = All IsRefused replies
Talks (ok (replied_error kind message) ∷ replies) = All IsRefused replies

module _ (allocates : ℕ → Bool) {G L K M : Type 0} {p : Provider (World G L K M)} (text : Text)
    (json : StateJson) where
  -- The replies to calls of `run_step`, one after the other. Between two of them, others may change
  -- the world of the call.
  unfoldable pub converse :
      List (List ℕ × (World G L K M → World G L K M))
      → Slot p
      → World G L K M
      → List (Result NifError Reply)
  converse [] slot w = []
  converse ((completion, others) ∷ calls) slot w =
      let (slot', w', reply) = advance_slot allocates text json completion slot w in
      reply ∷ converse calls slot' (others w')

  advance_slot_empty :
      (completion : List ℕ) (slot : Slot p) (w : World G L K M)
      → slot.execution ≡ none
      → advance_slot allocates text json completion slot w ≡ (slot, w, err bad_arg)
  unfolding advance_slot
  advance_slot_empty completion slot w gone = ground arith

  converse-All :
      (calls : List (List ℕ × (World G L K M → World G L K M))) (slot : Slot p) (w : World G L K M)
      → slot.execution ≡ none
      → All IsRefused (converse calls slot w)
  unfolding converse
  converse-All [] slot w gone = tt
  converse-All ((completion, others) ∷ calls) slot w gone =
      let same = advance_slot_empty completion slot w gone in
      (
        ap (λ r. r.2) same,
        subst (λ r. All IsRefused (converse calls r.0 (others r.1))) (sym same)
            (converse-All calls slot (others w) gone),
      )

  -- A final reply leaves an empty slot.
  abbrev Settles : Slot p → Result NifError Reply → Type 0
  Settles slot (err bad_arg) = Unit {0}
  Settles slot (ok (replied_continue bytes)) = Unit {0}
  Settles slot (ok (replied_ok bytes)) = slot.execution ≡ none
  Settles slot (ok (replied_error kind message)) = slot.execution ≡ none

  settle-Settles :
      (slot : Slot p) (result : Result Failure Progress)
      → Settles
          (settle allocates text json slot result).0
          (settle allocates text json slot result).1
  unfolding settle binary
  settle-Settles slot (err (kind, message)) = refl
  settle-Settles slot (ok (done bytes)) = elim (Bool-cases (allocates (length bytes))) [
    | inl room ↦ rw (settle, binary, room) refl
    | inr full ↦ rw (settle, binary, full) tt
  ]
  settle-Settles slot (ok (pending bytes)) = elim (Bool-cases (allocates (length bytes))) [
    | inl room ↦ rw (settle, binary, room) tt
    | inr full ↦ rw (settle, binary, full) tt
  ]

  fields-Settles :
      (completion : List ℕ) (execution : Option (Execution p)) (is_locked : Bool)
      (w : World G L K M)
      → let r =
          advance_slot allocates text json completion
            (record { execution = execution; is_locked = is_locked })
            w in
        Settles r.0 r.2
  unfolding advance_slot
  fields-Settles completion execution true w = tt
  fields-Settles completion none false w = tt
  fields-Settles completion (some e) false w =
      settle-Settles (record { execution = some e; is_locked = false })
        (advance text json e completion w).1

  advance_slot-Settles :
      (completion : List ℕ) (slot : Slot p) (w : World G L K M)
      → Settles
          (advance_slot allocates text json completion slot w).0
          (advance_slot allocates text json completion slot w).2
  advance_slot-Settles completion slot w = fields-Settles completion slot.execution slot.is_locked w

  talk :
      (slot : Slot p) (reply : Result NifError Reply) (replies : List (Result NifError Reply))
      → Settles slot reply
      → Talks replies
      → (slot.execution ≡ none → All IsRefused replies)
      → Talks (reply ∷ replies)
  talk slot (err bad_arg) replies settled talks over = talks
  talk slot (ok (replied_continue bytes)) replies settled talks over = talks
  talk slot (ok (replied_ok bytes)) replies settled talks over = over settled
  talk slot (ok (replied_error kind message)) replies settled talks over = over settled

  -- In any conversation, whatever others do to the world in between, at most one reply is final, a
  -- result or an error; every call after that is refused as a bad argument.
  pub converse-Talks :
      (calls : List (List ℕ × (World G L K M → World G L K M))) (slot : Slot p) (w : World G L K M)
      → Talks (converse calls slot w)
  unfolding converse
  converse-Talks [] slot w = tt
  converse-Talks ((completion, others) ∷ calls) slot w =
      let r = advance_slot allocates text json completion slot w in
      talk r.0 r.2 (converse calls r.0 (others r.1)) (advance_slot-Settles completion slot w)
        (converse-Talks calls r.0 (others r.1)) (converse-All calls r.0 (others r.1))
