-- ===== src/Supervisor/Line.antt =====
-- The command line of native/javex_nif/src/worker.rs: how `main` reads it, and how `supervise` writes that
-- of the child. Arguments are the bytes of their text.
pub mod Numbers
pub mod Child
mod Tests
use javex.Base.{
  ℕ, zero, suc, ◌+◌, ◌*◌, ◌/◌, ◌%◌, ◌-◌, ◌^◌, Bool, true, false, ◌&&◌, Option, none, some, List, [],
  ◌∷◌, ◌++◌, into_bytes, Anyhow, message, ltb, leb, ◌==◌, if◌then◌else◌, Result, ok, err, ensure,
  ok_or, ◌>>=◌, ◌>>◌,
}
use javex.Supervisor.{Args, check_args}

-- One more digit, if it is one, and the number stays below the limit.
unfoldable pub push_digit : ℕ → ℕ → ℕ → Option ℕ
push_digit limit acc b =
    if leb 48 b && (leb b 57 && ltb (acc * 10 + (b - 48)) limit)
    then some (acc * 10 + (b - 48))
    else none

unfoldable pub parse_digits : ℕ → ℕ → List ℕ → Option ℕ
unfolding push_digit
parse_digits limit acc [] = some acc
parse_digits limit acc (b ∷ bytes) = elim (push_digit limit acc b) [
  | none ↦ none
  | some acc' ↦ parse_digits limit acc' bytes
]

-- `str::parse` of an unsigned integer: digits, at least one, after a plus sign perhaps.
unfoldable pub parse : ℕ → List ℕ → Option ℕ
unfolding parse_digits
parse limit [] = none
parse limit (b ∷ []) = parse_digits limit 0 (b ∷ [])
parse limit (b ∷ c ∷ bytes) =
    if b == 43 then parse_digits limit 0 (c ∷ bytes) else parse_digits limit 0 (b ∷ c ∷ bytes)

-- `ToString::to_string`: a digit is taken off at a time, as many as the fuel says.
unfoldable pub digits : ℕ → ℕ → List ℕ
digits zero n = []
digits (suc fuel) n = if ltb n 10 then (48 + n) ∷ [] else digits fuel (n / 10) ++ (48 + n % 10) ∷ []

abbrev pub to_string : ℕ → List ℕ
to_string n = digits (suc n) n

abbrev pub u64_limit : ℕ
u64_limit = 2 ^ 64

abbrev pub u32_limit : ℕ
u32_limit = 2 ^ 32

abbrev pub bytes_eq : List ℕ → List ℕ → Bool
bytes_eq [] [] = true
bytes_eq [] (y ∷ ys) = false
bytes_eq (x ∷ xs) [] = false
bytes_eq (x ∷ xs) (y ∷ ys) = (x == y) && bytes_eq xs ys

-- `args.get(index)`
abbrev pub get_elem? : List (List ℕ) → ℕ → Option (List ℕ)
get_elem? [] index = none
get_elem? (x ∷ xs) zero = some x
get_elem? (x ∷ xs) (suc index) = get_elem? xs index

abbrev pub is_argument : Option (List ℕ) → List ℕ → Bool
is_argument none text = false
is_argument (some x) text = bytes_eq x text

unfoldable pub number_at : List (List ℕ) → ℕ → ℕ → Result Anyhow ℕ
unfolding parse
number_at args index limit = do
  text ← ok_or (get_elem? args index) (message "required")
  ok_or (parse limit text) (message "invalid digit found in string")

-- What `main` goes on with.
pub data Mode : Type 0 where
  child : ℕ → Args → Mode
  supervise : Args → Mode

-- The end of `main`: the parent of a child, or the other operation.
unfoldable pub choose : Bool → List (List ℕ) → Args → Result Anyhow Mode
unfolding number_at
choose true args a = do parent ← number_at args 2 u32_limit; ok (child parent a)
choose false args a = do
  ensure (is_argument (get_elem? args 1) (into_bytes "--supervise")) (message "invalid operation")
  ok (supervise a)

unfoldable pub read_args : List (List ℕ) → Result Anyhow Mode
unfolding choose
read_args args =
    let child_mode = is_argument (get_elem? args 1) (into_bytes "--child") in
    let offset = if child_mode then 3 else 2 in
    do
      memory ← number_at args offset u64_limit
      timeout ← number_at args (offset + 1) u64_limit
      maximum ← number_at args (offset + 2) u64_limit
      let a : Args = record { memory = memory; timeout = timeout; maximum = maximum }
      check_args a
      choose child_mode args a

-- What `supervise` starts: `current_exe` with its arguments.
unfoldable pub child_args : List ℕ → ℕ → Args → List (List ℕ)
child_args exe pid a =
    exe
    ∷ into_bytes "--child"
    ∷ to_string pid
    ∷ to_string a.memory
    ∷ to_string a.timeout
    ∷ to_string a.maximum
    ∷ []

-- `process::main().unwrap_or(127)`
unfoldable pub exit_status : Result Anyhow ℕ → ℕ
exit_status (ok code) = code
exit_status (err e) = 127
