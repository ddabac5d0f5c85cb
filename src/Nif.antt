-- ===== src/Nif.antt =====
-- The slot of an execution in native/javex_nif/src/lib.rs: what `run_step` and `advance` do with it, and
-- what they reply to Elixir. Whether a binary can be allocated is a parameter.
pub mod Conversation
pub mod Calls
mod Tests
use javex.Base.{
  ℕ, Bool, true, false, Option, none, some, List, [], ◌∷◌, String, Failure, Result, ok, err, ensure,
  ◌>>=◌, ◌>>◌, length, if◌then◌else◌,
}
use javex.Sandbox.{World, Text}
use javex.Execution.{Provider, Execution, Progress, done, pending}
use javex.Execution.Advance.{StateJson, advance}

-- `rustler::Error::BadArg`
pub data NifError : Type 0 where
  bad_arg : NifError

-- The terms that `advance` returns, by their tags.
pub data Reply : Type 0 where
  replied_ok : List ℕ → Reply
  replied_continue : List ℕ → Reply
  replied_error : String → String → Reply

-- `Mutex<Option<Execution>>`: the execution, unless it has ended, and whether another call holds the
-- lock.
pub record Slot {W : Type 0} (p : Provider W) : Type 0 where
  pub execution : Option (Execution p)
  pub is_locked : Bool

module _ (allocates : ℕ → Bool) where
  unfoldable pub binary : List ℕ → Result NifError (List ℕ)
  binary bytes = do ensure (allocates (length bytes)) bad_arg; ok bytes

  module _ {G L K M : Type 0} {p : Provider (World G L K M)} (text : Text) (json : StateJson) where
    -- The `match` on the result: the execution is dropped once it is done or has failed.
    unfoldable pub settle : Slot p → Result Failure Progress → Slot p × Result NifError Reply
    unfolding binary
    settle slot (ok (done bytes)) =
        (record slot { execution = none }, binary bytes >>= λ sent. ok (replied_ok sent))
    settle slot (ok (pending bytes)) = (slot, binary bytes >>= λ sent. ok (replied_continue sent))
    settle slot (err (kind, message)) =
        (record slot { execution = none }, ok (replied_error kind message))

    -- `advance`, which `run_step` calls: a lock that is held, or an empty slot, is a bad argument.
    unfoldable pub advance_slot :
        List ℕ → Slot p → World G L K M → Slot p × World G L K M × Result NifError Reply
    unfolding settle
    advance_slot completion slot w =
        if slot.is_locked then (slot, w, err bad_arg) else elim slot.execution [
          | none ↦ (slot, w, err bad_arg)
          | some e ↦
              let (w', result) = advance text json e completion w in
              let (slot', reply) = settle slot result in (slot', w', reply)
        ]
