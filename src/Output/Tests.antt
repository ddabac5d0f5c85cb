-- ===== src/Output/Tests.antt =====
-- Runs of the stream model, after the unit tests of native/javex_nif/src/output.rs.
use javex.Base.{◌≡◌, refl, true, false, List, [], ◌∷◌, arith, ok, is_err, wrapping_sub}
use javex.Output.{
  Output, Heap, default, store, new, exceeded, contents, append, write, poll_write, flush,
  check_write,
}
use javex.Output.Quota.{Tracks, check_write_room, check_write_full, is_err-write}
use javex.Output.Streams.{Call, writes, polls, flushes, checks, step, run, run-new}

abbrev blank : Heap
blank = record { cell = λ p. default; next = 0 }

-- A stream of capacity 5 and its heap.
abbrev stream : Output
stream = record { capacity = 5; state = 0 }

abbrev started : Heap
started = record { cell = λ p. default; next = 1 }

-- Two clones write, another stream writes in between.
abbrev calls : List Call
calls =
    writes stream (97 ∷ 98 ∷ [])
    ∷ writes (record { capacity = 3; state = 1 }) (1 ∷ 2 ∷ [])
    ∷ checks stream
    ∷ polls stream (99 ∷ 100 ∷ 101 ∷ 102 ∷ [])
    ∷ flushes stream
    ∷ []

-- `cloned_streams_share_the_quota_and_preserve_a_diagnostic_prefix`
cloned_streams_share_the_quota :
    (contents stream (run calls started) ≡ 97 ∷ 98 ∷ 99 ∷ 100 ∷ 101 ∷ [])
    × (exceeded stream (run calls started) ≡ true)
unfolding run step write append store contents exceeded wrapping_sub flush poll_write
cloned_streams_share_the_quota = (refl, refl)

run-new_example :
    (contents (new 5 blank).0 (run calls (new 5 blank).1) ≡ 97 ∷ 98 ∷ 99 ∷ 100 ∷ 101 ∷ [])
    × (exceeded (new 5 blank).0 (run calls (new 5 blank).1) ≡ true)
unfolding new
run-new_example =
    run-new 5 blank calls (omega arith)
      (λ e. refl, (λ e. absurd (omega arith), (λ e. refl, (λ e. refl, (λ e. refl, tt)))))

-- The stream after two bytes, and after five.
abbrev partial : Heap
partial = record { cell = λ p. record { bytes = 97 ∷ 98 ∷ []; exceeded = false }; next = 1 }

abbrev full : Heap
full = record { cell = λ p. record { bytes = 1 ∷ 2 ∷ 3 ∷ 4 ∷ 5 ∷ []; exceeded = false }; next = 1 }

partial-Tracks : Tracks stream partial (97 ∷ 98 ∷ [])
unfolding contents exceeded
partial-Tracks = record { word = omega arith; kept = refl; flagged = refl }

full-Tracks : Tracks stream full (1 ∷ 2 ∷ 3 ∷ 4 ∷ 5 ∷ [])
unfolding contents exceeded
full-Tracks = record { word = omega arith; kept = refl; flagged = refl }

is_err-write_example : is_err (write stream (99 ∷ []) partial).1 ≡ false
is_err-write_example = is_err-write stream (99 ∷ []) partial partial-Tracks (omega arith)

check_write_room_example :
    (is_err (write stream (7 ∷ 8 ∷ 9 ∷ []) partial).1 ≡ false)
    × (contents stream (write stream (7 ∷ 8 ∷ 9 ∷ []) partial).0 ≡ 97 ∷ 98 ∷ 7 ∷ 8 ∷ 9 ∷ [])
    × (exceeded stream (write stream (7 ∷ 8 ∷ 9 ∷ []) partial).0 ≡ false)
unfolding contents check_write wrapping_sub
check_write_room_example =
    check_write_room stream partial (97 ∷ 98 ∷ []) (7 ∷ 8 ∷ 9 ∷ []) partial-Tracks refl
      (omega arith) (omega arith) (omega arith)

check_write_full_example :
    (check_write stream full ≡ ok 1)
    × (is_err (write stream (6 ∷ []) full).1 ≡ true)
    × (exceeded stream (write stream (6 ∷ []) full).0 ≡ true)
    × (contents stream (write stream (6 ∷ []) full).0 ≡ 1 ∷ 2 ∷ 3 ∷ 4 ∷ 5 ∷ [])
unfolding contents
check_write_full_example =
    check_write_full stream full (1 ∷ 2 ∷ 3 ∷ 4 ∷ 5 ∷ []) (6 ∷ []) full-Tracks (omega arith)
      (omega arith)
