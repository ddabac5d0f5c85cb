-- ===== src/Plugin/Bridge.antt =====
-- native/javex_plugin/src/bridge.js: the callbacks of a script, between `Javex.Host.call` and the completions
-- of the host. The promises and the texts that QuickJS makes are left out; a report is what its JSON
-- says.
mod Ids
pub mod Numbers
pub mod Limits
mod Tests
use javex.Base.{
  ℕ, zero, suc, ◌+◌, Bool, true, false, ◌&&◌, ◌||◌, Option, none, some, List, [], ◌∷◌, ◌++◌, length,
  ltb, leb, ◌==◌, if◌then◌else◌, Anyhow, message, Result, ok, err,
}

-- What `stringify(argument)` gives: a text, or nothing that is sent.
pub data Json : Type 0 where
  text : List ℕ → Json
  undefined throws : Json

-- A call of `Javex.Host.call`, by the UTF-8 of the name, if it is a text, by the calls that code of the
-- guest makes while `stringify` turns the argument into JSON (a `toJSON`, a getter, a trap of a
-- proxy), and by that JSON.
mutual
  pub data Call : Type 0 where
    call : Option (List ℕ) → Calls → Json → Call

  pub data Calls : Type 0 where
    no_calls : Calls
    calls : Call → Calls → Calls

pub record HostRequest : Type 0 where
  pub id : ℕ
  pub name : List ℕ
  pub argument : List ℕ

-- The keys of `pending`, `requests` before they are joined, `count` and `fatal`.
pub record Bridge : Type 0 where
  pub pending : List ℕ
  pub requests : List HostRequest
  pub count : ℕ
  pub fatal : Bool

abbrev pub new_bridge : Bridge
new_bridge = record { pending = []; requests = []; count = 0; fatal = false }

abbrev pub is_name : Option (List ℕ) → Bool
is_name none = false
is_name (some name) = ltb 0 (length name) && leb (length name) 128

-- `typeof name === "string"`, once that was tested
abbrev pub name_of : Option (List ℕ) → List ℕ
name_of none = []
name_of (some name) = name

module _ (max_calls max_concurrent max_input : ℕ) where
  -- From `stringify` on.
  unfoldable pub send : ℕ → List ℕ → Json → Bridge → Bridge
  send id name undefined s = s
  send id name throws s = s
  send id name (text json) s =
      if ltb max_input (length json) then record s { fatal = true } else record s {
        pending = id ∷ s.pending;
        requests = s.requests ++ record { id = id; name = name; argument = json } ∷ [];
      }

  -- The first test of `call`, with the new id.
  abbrev pub is_over : ℕ → Bridge → Bool
  is_over id s = ltb max_calls id || leb max_concurrent (length s.pending)

  unfoldable mutual
    unfolding send

    pub run : Call → Bridge → Bridge
    run (call name nested json) s =
        let id = s.count + 1 in
        let inner = run_all nested (record s { count = id }) in
        if is_over id s
        then record s { count = id; fatal = true }
        else if is_name name
        then send id (name_of name) json inner
        else record s { count = id }

    pub run_all : Calls → Bridge → Bridge
    run_all no_calls s = s
    run_all (calls c cs) s = run_all cs (run c s)

abbrev pub without : ℕ → List ℕ → List ℕ
without id [] = []
without id (x ∷ xs) = if x == id then xs else x ∷ without id xs

abbrev pub is_pending : ℕ → List ℕ → Bool
is_pending id [] = false
is_pending id (x ∷ xs) = (x == id) || is_pending id xs

-- The loop over the completions; an unknown one ends it.
unfoldable pub complete : List ℕ → Bridge → Bridge × Result Anyhow (Unit {0})
complete [] s = (s, ok tt)
complete (id ∷ ids) s =
    if is_pending id s.pending
    then complete ids (record s { pending = without id s.pending })
    else (s, err (message "Unknown callback completion"))

pub record HostReport : Type 0 where
  pub done : Bool
  pub fatal : Bool
  pub sent : List HostRequest

-- The end of the returned function, in a mode other than zero.
unfoldable pub report : Bool → Bridge → Bridge × HostReport
report done s = (
  record s { requests = [] },
  record { done = done; fatal = s.fatal; sent = if done then [] else s.requests },
)

-- What happens to a bridge, first to last.
pub data Event : Type 0 where
  calls_host : Call → Event
  completes : List ℕ → Event
  reports : Bool → Event

module _ (max_calls max_concurrent max_input : ℕ) where
  unfoldable pub happen : Event → Bridge → Bridge
  unfolding run complete report
  happen (calls_host c) s = run max_calls max_concurrent max_input c s
  happen (completes ids) s = (complete ids s).0
  happen (reports done) s = (report done s).0

  unfoldable pub history : List Event → Bridge → Bridge
  unfolding happen
  history [] s = s
  history (e ∷ events) s = history events (happen e s)
