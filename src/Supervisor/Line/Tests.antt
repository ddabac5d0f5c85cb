-- ===== src/Supervisor/Line/Tests.antt =====
-- The command line of a child.
use javex.Base.{◌≡◌, refl, [], ◌∷◌, ok, arith}
use javex.Supervisor.{Args, check_args}
use javex.Supervisor.Line.{child, read_args, child_args}
use javex.Supervisor.Line.Child.{read_args-child_args}

abbrev args : Args
args = record { memory = 536_870_912; timeout = 5_000; maximum = 1_024 }

read_args-child_args_example : read_args (child_args (106 ∷ []) 4_711 args) ≡ ok (child 4_711 args)
unfolding check_args
read_args-child_args_example = read_args-child_args (106 ∷ []) 4_711 args (omega arith) refl
