-- ===== src/Child/Setup/Fixtures.antt =====
-- A platform that grants everything, and a request of four empty frames.
use javex.Base.{true, none, [], ◌∷◌, ok}
use javex.Engine.{Config}
use javex.Ipc.{Parts}
use javex.Isolation.{x86_64}
use javex.Child.Setup.{Boot, Platform}

abbrev pub platform : Platform Config
platform = record {
  grants = λ r. true;
  ppid = 7;
  threads = record { new_engine = λ c. ok c; spawn = λ e. ok tt; recv = λ e. ok tt };
  build_tokio = ok tt;
  recv_tokio = ok tt;
  libc = record {
    number = λ s. 1;
    command = λ c. 1;
    ret_allow = 2;
    ret_deny = 3;
    ret_kill_process = 4;
  };
  arch = x86_64;
  pid = 8;
  installs = λ program. true;
}

-- Four empty frames.
abbrev pub boot : Boot Config
boot = record {
  deeds = [];
  process = record { engine = none; clocks = [] };
  stdin = 0 ∷ 0 ∷ 0 ∷ 0 ∷ 0 ∷ 0 ∷ 0 ∷ 0 ∷ 0 ∷ 0 ∷ 0 ∷ 0 ∷ 0 ∷ 0 ∷ 0 ∷ 0 ∷ [];
}

abbrev pub parts : Parts
parts = record { header = []; plugin = []; compiled = []; input = [] }
