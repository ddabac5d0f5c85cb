-- ===== src/Relay/Tests.antt =====
-- Runs of the reader's loop, with a JSON that quotes a text and reads two kinds back.
use javex.Base.{
  ℕ, ◌≡◌, refl, Bool, true, false, ◌&&◌, List, [], ◌∷◌, ◌++◌, String, into_bytes, encode_char,
  message, ◌==◌, if◌then◌else◌, ok, err, arith, wrapping_sub,
}
use javex.Ipc.{
  Json, Pipe, be_value, to_be_bytes, read_exact, read_frame, write_all, try_from, write_frame,
  event,
}
use javex.Ipc.Frames.{frame}
use javex.Relay.{Maxima, any_eq, maximum_for, round, relay}
use javex.Relay.Traffic.{Event, encoded, Relays, Ends, relay-Relays}
use javex.Relay.Honest.{sent, relay_honest}

program : Unit {0}
unfolding into_bytes encode_char be_value to_be_bytes read_exact read_frame write_all try_from
    write_frame event frame any_eq maximum_for round relay wrapping_sub
program = tt

abbrev list_eq : List ℕ → List ℕ → Bool
list_eq [] [] = true
list_eq (x ∷ xs) (y ∷ ys) = (x == y) && list_eq xs ys
list_eq _ _ = false

abbrev quote : String → List ℕ
quote k = 34 ∷ (into_bytes k ++ 34 ∷ [])

abbrev json : Json
json = record {
  to_vec = quote;
  from_slice = λ b.
      if list_eq b (quote "ok")
      then ok "ok"
      else if list_eq b (quote "callbacks")
      then ok "callbacks"
      else err (message "invalid JSON");
}

abbrev maxima : Maxima
maxima = record { callback_maximum = 5; result_maximum = 4; diagnostic_maximum = 3 }

abbrev events : List Event
events = ("callbacks", 1 ∷ 2 ∷ []) ∷ ("ok", 7 ∷ 8 ∷ 9 ∷ []) ∷ []

abbrev pipe : Pipe
pipe = record { bytes = []; is_open = true }

passes :
    relay json maxima 3 100 (encoded json events) pipe
    ≡ (sent json maxima pipe (encoded json events), ok tt)
unfolding program
passes = refl

too_long :
    relay json maxima 3 100 (encoded json (("ok", 1 ∷ 2 ∷ 3 ∷ 4 ∷ 5 ∷ []) ∷ [])) pipe
    ≡ (pipe, err (message "IPC request limit exceeded"))
unfolding program
too_long = refl

relay_honest_example :
    relay json maxima 3 100 (encoded json events) pipe
    ≡ (sent json maxima pipe (encoded json events), ok tt)
unfolding program
relay_honest_example =
    relay_honest json maxima events 3 100 pipe (omega arith) refl (refl, refl)
      ((5, refl, omega arith), ((4, refl, omega arith), tt))
      ((omega arith, refl), ((omega arith, refl), tt)) (omega arith) (omega arith)

relay-Relays_example :
    (es : List Event) × Relays json maxima 3 100 pipe
      (relay json maxima 3 100 (0 ∷ 0 ∷ []) pipe).0
      es
    × Ends (relay json maxima 3 100 (0 ∷ 0 ∷ []) pipe).1 es
relay-Relays_example = relay-Relays json maxima 3 100 (0 ∷ 0 ∷ []) pipe (omega arith)
