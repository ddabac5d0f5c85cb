-- ===== src/Child/Setup.antt =====
-- What `child` in native/javex_nif/src/worker.rs does up to the request: it confines itself, starts its
-- threads, restricts its system calls, and only then reads. What the kernel and tokio answer is an
-- argument.
pub mod Order
pub mod Fixtures
mod Tests
use javex.Base.{ℕ, Bool, true, false, List, [], ◌∷◌, Anyhow, Result, ok, err, discard}
use javex.Engine.{Threads, Process, initialize_engine}
use javex.Execution.{Act, proceed, ◌>>=◌, ◌>>◌, lift}
use javex.Ipc.{Parts, request}
use javex.Isolation.{Arch, Libc, SockFilter}
use javex.Isolation.Prepare
use javex.Isolation.Install.{restrict_syscalls}

-- What is done: the restrictions and the policy once they are in force, the threads and the input from
-- the attempt on.
pub data Deed : Type 0 where
  confines starts_clock starts_runtime restricts reads : Deed

-- The process: what was done, latest first, its engine, and what is left of stdin.
pub record Boot (Engine : Type 0) : Type 0 where
  pub deeds : List Deed
  pub process : Process Engine
  pub stdin : List ℕ

-- The answers of the kernel, of wasmtime and the threads, and of tokio: `build()?` and `recv()?`.
pub record Platform (Engine : Type 0) : Type 0 where
  pub grants : Prepare.Request → Bool
  pub ppid : ℕ
  pub threads : Threads Engine
  pub build_tokio : Result Anyhow (Unit {0})
  pub recv_tokio : Result Anyhow (Unit {0})
  pub libc : Libc
  pub arch : Arch
  pub pid : ℕ
  pub installs : List SockFilter → Bool

module _ {Engine : Type 0} (platform : Platform Engine) where
  open platform use {grants, ppid, threads, build_tokio, recv_tokio, libc, arch, pid, installs}

  -- A deed that counts if it succeeds.
  abbrev pub perform : Deed → Result Anyhow (Unit {0}) → Act (Boot Engine) (Unit {0})
  perform deed (ok _) w = (record w { deeds = deed ∷ w.deeds }, ok tt)
  perform deed (err e) w = (w, err e)

  abbrev pub start_clock : Act (Boot Engine) (Unit {0})
  start_clock w =
      let (process, engine) = initialize_engine threads true w.process in
      (record w { deeds = starts_clock ∷ w.deeds; process = process }, discard engine)

  abbrev pub start_runtime : Act (Boot Engine) (Unit {0})
  start_runtime w = (record w { deeds = starts_runtime ∷ w.deeds }, build_tokio)

  abbrev pub with_rest :
      Boot Engine → Result Anyhow (Parts × List ℕ) → Boot Engine × Result Anyhow Parts
  with_rest w (ok (parts, stdin)) = (record w { stdin = stdin }, ok parts)
  with_rest w (err e) = (w, err e)

  abbrev pub read_request : Act (Boot Engine) Parts
  read_request w = with_rest (record w { deeds = reads ∷ w.deeds }) (request w.stdin)

  unfoldable pub set_up : ℕ → ℕ → ℕ → Act (Boot Engine) Parts
  set_up parent memory timeout = do
    perform confines (Prepare.prepare grants ppid parent memory timeout)
    start_clock
    start_runtime
    lift recv_tokio
    perform restricts (restrict_syscalls libc installs arch pid)
    read_request
