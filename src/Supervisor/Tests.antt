-- ===== src/Supervisor/Tests.antt =====
-- Runs of the supervisor's loop and of its completion threads.
use javex.Base.{
  ℕ, ◌≤◌, ◌<◌, ◌≡◌, refl, true, false, none, some, List, [], ◌∷◌, ◌++◌, message, Result, ok, err,
  arith, All, inl, inr, Anyhow,
}
use javex.Ipc.{max_request}
use javex.Supervisor.{
  Request, plan, exited, signalled, Observation, poll_once, poll, final_code, check_args,
}
use javex.Supervisor.Exit.{Any, Shows, poll_ends, poll-Shows, final_zero, plan-bounds}
use javex.Supervisor.Completions.{
  Config, Threads, Writer, spawned, Reach, here, next, serves, buffers, takes, writes, closes,
}
use javex.Supervisor.Completions.Invariant.{Inv, spawned-Reach-Inv}

abbrev running : Observation
running = record { status = none; cancelled = false; overflow = false; now = 3 }

abbrev late : Observation
late = record running { now = 10 }

abbrev done : Observation
done = record running { status = some (exited 0) }

times_out : poll 10 (running ∷ running ∷ late ∷ done ∷ []) ≡ some 124
unfolding poll poll_once
times_out = refl

killed : poll 10 (record running { status = some (signalled 9) } ∷ []) ≡ some 137
unfolding poll poll_once
killed = refl

reader_failed : final_code 0 (err (message "extra worker output")) ≡ 126
unfolding final_code
reader_failed = refl

zero_timeout :
    check_args (record { memory = 1; timeout = 0; maximum = 1 })
    ≡ err (message "invalid process budget")
unfolding check_args
zero_timeout = refl

poll_ends_example : (code : ℕ) × (poll 10 (running ∷ late ∷ []) ≡ some code)
poll_ends_example = poll_ends 10 (running ∷ late ∷ []) (inr (inl (omega arith)))

poll-Shows_example :
    (before : List Observation) × (o : Observation) × (after : List Observation) × (running ∷ late
        ∷ []
      ≡ before ++ o ∷ after)
    × All
        (λ p. (p.status ≡ none) × (p.cancelled ≡ false) × (p.overflow ≡ false) × (p.now < 10))
        before
    × Shows 10 124 o
unfolding poll poll_once
poll-Shows_example = poll-Shows 10 124 (running ∷ late ∷ []) refl

final_zero_example :
    Any (λ o. o.status ≡ some (exited 0)) (running ∷ done ∷ [])
    × (◌≡◌ {A = Result Anyhow (Unit {0})} (ok tt) (ok tt))
unfolding poll poll_once final_code
final_zero_example = final_zero 10 0 (running ∷ done ∷ []) (ok tt) refl refl

abbrev compiles : Request
compiles = record {
  operation = "compile";
  limits = record {
    fuel = 1;
    max_memory = 1;
    max_input = 1;
    max_output = 100;
    max_stderr = 100;
    max_module = 200;
    max_callback_calls = 1;
    max_callback_concurrency = 1;
    max_callback_input = 1;
    max_callback_output = 1;
    env = [];
    static_mode = false;
  };
}

plan-bounds_example :
    (plan compiles).maxima.result_maximum ≤ max_request
    × ((4096 ≤ (plan compiles).maxima.callback_maximum)
        × ((plan compiles).maxima.callback_maximum ≤ max_request))
    × ((4096 ≤ (plan compiles).completion_maximum)
        × ((plan compiles).completion_maximum ≤ max_request))
    × ((4096 ≤ (plan compiles).maxima.diagnostic_maximum)
        × ((plan compiles).maxima.diagnostic_maximum ≤ max_request))
plan-bounds_example = plan-bounds compiles

abbrev config : Config
config = record { capacity = 1; completion_maximum = 10; max_callbacks = 1; max_request = 100 }

abbrev frame : List ℕ
frame = 91 ∷ 93 ∷ []

-- The request is sent, a frame goes through, and the BEAM closes its end.
abbrev one_frame : Threads
one_frame = record {
  remaining = 98;
  rounds = 1;
  reading = false;
  queue = [];
  writer = Writer.serving;
  hand = none;
  cancelled = true;
  received = frame ∷ [];
  sent = frame ∷ [];
}

reaches_one_frame : Reach config (spawned config) one_frame
reaches_one_frame =
    let t = record (spawned config) { writer = Writer.serving } in
    let u = record t { remaining = 98; rounds = 1; queue = frame ∷ []; received = frame ∷ [] } in
    let v = record u { queue = []; hand = some frame } in
    let w = record v { hand = none; sent = frame ∷ [] } in
    next
      (next
        (next
          (next (next here (serves (spawned config) refl)) (
            buffers t 1 frame
              (record { running = refl; some_bytes = omega arith; within = omega arith }) refl
              (λ e. cc) (omega arith)))
          (takes u frame [] refl refl refl))
        (writes v frame refl refl))
      (closes w refl)

spawned-Reach-Inv_example : Inv config one_frame
spawned-Reach-Inv_example = spawned-Reach-Inv config one_frame reaches_one_frame
