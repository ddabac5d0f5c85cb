-- ===== src/Child/Setup/Tests.antt =====
-- A platform that grants everything.
use javex.Base.{ℕ, ◌≡◌, refl, true, none, List, [], ◌∷◌, ◌++◌, ok}
use javex.Engine.{initialize_engine}
use javex.Ipc.{request, read_frame, read_exact, be_value}
use javex.Isolation.{filter, allow_each, allowed}
use javex.Isolation.Prepare
use javex.Isolation.Install.{restrict_syscalls}
use javex.Child.Setup.{set_up}
use javex.Child.Setup.Order.{IsOrdered, set_up-IsOrdered, IsReady, set_up-IsReady}
use javex.Child.Setup.Fixtures.{platform, boot, parts}

set_up-IsOrdered_example : IsOrdered (set_up platform 7 1_024 500 boot).0.deeds
set_up-IsOrdered_example = set_up-IsOrdered platform 7 1_024 500 boot refl

set_up-IsReady_example :
    IsReady platform 7 1_024 500 boot (set_up platform 7 1_024 500 boot).0 parts
unfolding set_up Prepare.prepare restrict_syscalls filter allow_each allowed initialize_engine
    request read_frame read_exact be_value javex.Base.wrapping_sub
set_up-IsReady_example =
    set_up-IsReady platform 7 1_024 500 boot (set_up platform 7 1_024 500 boot).0 parts refl
