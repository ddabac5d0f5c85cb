-- ===== src/Child/Process/Tests.antt =====
-- A child from its start to its end.
use javex.Base.{ℕ, List, [], ◌∷◌, arith}
use javex.Ipc.{request, read_frame, read_exact, be_value}
use javex.Engine.{initialize_engine}
use javex.Isolation.{filter, allow_each, allowed}
use javex.Isolation.Prepare
use javex.Isolation.Install.{restrict_syscalls}
use javex.Child.Setup.{set_up}
use javex.Child.Setup.Fixtures.{platform, boot}
use javex.Child.Operate.Fixtures.{backend, provider-ReadsWhole, shared, pipe}
use javex.Child.Process.{child_process, Serves, child_process-Serves}

child_process-Serves_example :
    Serves platform backend 7 1_024 500 100 provider-ReadsWhole boot pipe
      (child_process platform backend 1 7 1_024 500 100 boot shared pipe)
      (set_up platform 7 1_024 500 boot)
unfolding set_up Prepare.prepare restrict_syscalls filter allow_each allowed initialize_engine
    request read_frame read_exact be_value javex.Base.wrapping_sub
child_process-Serves_example =
    child_process-Serves platform backend provider-ReadsWhole 1 7 1_024 500 100 boot shared pipe
      (omega arith)
