-- ===== src/Isolation.antt =====
-- The syscall filter and the resource limits of native/javex_nif/src/isolation.rs. The numbers of
-- libc and of the kernel's interface are parameters; the program is a list of instructions.
pub mod Machine
pub mod Policy
pub mod Install
pub mod Prepare
mod Tests
use javex.Base.{ℕ, ◌+◌, ◌%◌, List, [], ◌∷◌, ◌++◌, map, u32_mod}

pub data Arch : Type 0 where
  x86_64 aarch64 : Arch

-- The system calls that the filter names.
pub data Syscall : Type 0 where
  read write readv writev close fstat lseek mmap mprotect munmap mremap brk madvise futex : Syscall
  clock_gettime clock_nanosleep nanosleep getrandom sched_yield sched_getaffinity : Syscall
  rt_sigaction rt_sigprocmask rt_sigreturn sigaltstack getpid gettid getrlimit exit exit_group :
      Syscall
  membarrier epoll_create1 epoll_ctl epoll_pwait epoll_wait eventfd2 pipe2 tgkill fcntl : Syscall

-- The commands of `fcntl` that it names.
pub data Command : Type 0 where
  getfd setfd getfl setfl dupfd_cloexec : Command

-- The constants of libc.
pub record Libc : Type 0 where
  pub number : Syscall → ℕ
  pub command : Command → ℕ
  pub ret_allow : ℕ
  -- `SECCOMP_RET_ERRNO | EPERM`
  pub ret_deny : ℕ
  pub ret_kill_process : ℕ

-- `LOAD`, `EQUAL` and `RETURN`, as `u16` codes of the kernel.
pub data Code : Type 0 where
  load equal return : Code

-- `libc::sock_filter`
pub record SockFilter : Type 0 where
  pub code : Code
  pub jt : ℕ
  pub jf : ℕ
  pub k : ℕ

unfoldable pub instruction : Code → ℕ → ℕ → ℕ → SockFilter
instruction code jt jf k = record { code = code; jt = jt; jf = jf; k = k }

-- `ARCH`
abbrev pub arch_number : Arch → ℕ
arch_number x86_64 = 0xc000_003e
arch_number aarch64 = 0xc000_00b7

-- `epoll_wait` exists on x86_64 only.
abbrev pub epoll_waits : Arch → List Syscall
epoll_waits x86_64 = Syscall.epoll_wait ∷ []
epoll_waits aarch64 = []

-- `allowed`
unfoldable pub allowed : Arch → List Syscall
allowed arch =
    Syscall.read
    ∷ Syscall.write
    ∷ Syscall.readv
    ∷ Syscall.writev
    ∷ Syscall.close
    ∷ Syscall.fstat
    ∷ Syscall.lseek
    ∷ Syscall.mmap
    ∷ Syscall.mprotect
    ∷ Syscall.munmap
    ∷ Syscall.mremap
    ∷ Syscall.brk
    ∷ Syscall.madvise
    ∷ Syscall.futex
    ∷ Syscall.clock_gettime
    ∷ Syscall.clock_nanosleep
    ∷ Syscall.nanosleep
    ∷ Syscall.getrandom
    ∷ Syscall.sched_yield
    ∷ Syscall.sched_getaffinity
    ∷ Syscall.rt_sigaction
    ∷ Syscall.rt_sigprocmask
    ∷ Syscall.rt_sigreturn
    ∷ Syscall.sigaltstack
    ∷ Syscall.getpid
    ∷ Syscall.gettid
    ∷ Syscall.getrlimit
    ∷ Syscall.exit
    ∷ Syscall.exit_group
    ∷ Syscall.membarrier
    ∷ Syscall.epoll_create1
    ∷ Syscall.epoll_ctl
    ∷ Syscall.epoll_pwait
    ∷ (epoll_waits arch ++ (Syscall.eventfd2 ∷ Syscall.pipe2 ∷ []))

abbrev pub commands : List Command
commands =
    Command.getfd ∷ Command.setfd ∷ Command.getfl ∷ Command.setfl ∷ Command.dupfd_cloexec ∷ []

-- `as u32`
abbrev pub as_u32 : ℕ → ℕ
as_u32 n = n % u32_mod

module _ (libc : Libc) where
  open libc use {number, command, ret_allow, ret_deny, ret_kill_process}

  -- The loops over `allowed` and over the commands: two instructions for each number.
  unfoldable pub allow_each : List ℕ → List SockFilter
  unfolding instruction
  allow_each [] = []
  allow_each (n ∷ ns) =
      instruction Code.equal 0 1 (as_u32 n) ∷ instruction Code.return 0 0 ret_allow ∷ allow_each ns

  -- The program that `restrict_syscalls` installs for a process.
  unfoldable pub filter : Arch → ℕ → List SockFilter
  unfolding instruction
  filter arch pid =
      instruction Code.load 0 0 4
      ∷ instruction Code.equal 1 0 (arch_number arch)
      ∷ instruction Code.return 0 0 ret_kill_process
      ∷ instruction Code.load 0 0 0
      ∷ (allow_each (map number (allowed arch))
          ++ (instruction Code.equal 0 4 (as_u32 (number Syscall.tgkill))
              ∷ instruction Code.load 0 0 16
              ∷ instruction Code.equal 1 0 pid
              ∷ instruction Code.return 0 0 ret_deny
              ∷ instruction Code.return 0 0 ret_allow
              ∷ instruction Code.equal 1 0 (as_u32 (number Syscall.fcntl))
              ∷ instruction Code.return 0 0 ret_deny
              ∷ instruction Code.load 0 0 24
              ∷ (allow_each (map command commands) ++ instruction Code.return 0 0 ret_deny ∷ [])))
