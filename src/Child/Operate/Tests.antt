-- ===== src/Child/Operate/Tests.antt =====
-- A child that is asked to `run`: its provider has a state of zeros, and stdin has one completion.
use javex.Base.{[], ◌∷◌, arith}
use javex.Child.Operate.{answer_request}
use javex.Child.Operate.Output.{Answers, answer_request-Answers}
use javex.Child.Operate.Fixtures.{provider-ReadsWhole, backend, shared, parts, pipe}

answer_request-Answers_example :
    Answers backend provider-ReadsWhole
      (123 ∷ 125 ∷ [])
      100
      pipe
      (answer_request backend 7 parts 1_000 100 shared (0 ∷ 0 ∷ 0 ∷ 2 ∷ 91 ∷ 93 ∷ []) pipe)
answer_request-Answers_example =
    answer_request-Answers backend provider-ReadsWhole 7 parts 1_000 100 shared
      (0 ∷ 0 ∷ 0 ∷ 2 ∷ 91 ∷ 93 ∷ []) pipe (omega arith)
