-- ===== src/Isolation/Tests.antt =====
-- Runs of the filter with the numbers of x86_64 Linux.
use javex.Base.{ℕ, ◌+◌, ◌*◌, ◌≤◌, ◌<◌, ◌≡◌, ◌↔◌, refl, Bool, true, some, ok, arith, message, err}
use javex.Isolation.{
  x86_64, aarch64, Syscall, Command, Libc, instruction, allowed, allow_each, filter,
}
use javex.Isolation.Machine.{SeccompData, word_at, execute, result}
use javex.Isolation.Policy.{is_one_of, policy, IsAllowed, result-policy, result-IsAllowed}
use javex.Isolation.Prepare.{
  Request, limit, prepare, IsConfined, prepare_iff, cpu_seconds, cpu_seconds_bounds,
}

program : Unit {0}
unfolding instruction allowed allow_each filter word_at execute is_one_of policy limit prepare
    cpu_seconds
program = tt

abbrev number : Syscall → ℕ
number Syscall.read = 0
number Syscall.write = 1
number Syscall.readv = 19
number Syscall.writev = 20
number Syscall.close = 3
number Syscall.fstat = 5
number Syscall.lseek = 8
number Syscall.mmap = 9
number Syscall.mprotect = 10
number Syscall.munmap = 11
number Syscall.mremap = 25
number Syscall.brk = 12
number Syscall.madvise = 28
number Syscall.futex = 202
number Syscall.clock_gettime = 228
number Syscall.clock_nanosleep = 230
number Syscall.nanosleep = 35
number Syscall.getrandom = 318
number Syscall.sched_yield = 24
number Syscall.sched_getaffinity = 204
number Syscall.rt_sigaction = 13
number Syscall.rt_sigprocmask = 14
number Syscall.rt_sigreturn = 15
number Syscall.sigaltstack = 131
number Syscall.getpid = 39
number Syscall.gettid = 186
number Syscall.getrlimit = 97
number Syscall.exit = 60
number Syscall.exit_group = 231
number Syscall.membarrier = 324
number Syscall.epoll_create1 = 291
number Syscall.epoll_ctl = 233
number Syscall.epoll_pwait = 281
number Syscall.epoll_wait = 232
number Syscall.eventfd2 = 290
number Syscall.pipe2 = 293
number Syscall.tgkill = 234
number Syscall.fcntl = 72

abbrev command : Command → ℕ
command Command.getfd = 1
command Command.setfd = 2
command Command.getfl = 3
command Command.setfl = 4
command Command.dupfd_cloexec = 1030

abbrev linux : Libc
linux = record {
  number = number;
  command = command;
  ret_allow = 0x7fff_0000;
  ret_deny = 0x0005_0001;
  ret_kill_process = 0x8000_0000;
}

-- A call of number `nr` with two arguments, on x86_64.
abbrev call : ℕ → ℕ → ℕ → SeccompData
call nr a b = record { nr = nr; arch = 0xc000_003e; arg0 = a; arg1 = b }

-- `read`, `execve`, `F_SETOWN`, `F_GETFD`, and `tgkill` of process 42 and of another, by process 42; and
-- a call through another architecture.
verdicts :
    (result (filter linux x86_64 42) (call 0 0 0) ≡ some 0x7fff_0000)
    × (result (filter linux x86_64 42) (call 59 0 0) ≡ some 0x0005_0001)
    × (result (filter linux x86_64 42) (call 72 0 8) ≡ some 0x0005_0001)
    × (result (filter linux x86_64 42) (call 72 0 1) ≡ some 0x7fff_0000)
    × (result (filter linux x86_64 42) (call 234 42 7) ≡ some 0x7fff_0000)
    × (result (filter linux x86_64 42) (call 234 41 7) ≡ some 0x0005_0001)
    × (result (filter linux aarch64 42) (call 0 0 0) ≡ some 0x8000_0000)
unfolding program
verdicts = (refl, refl, refl, refl, refl, refl, refl)

result-policy_example :
    result (filter linux x86_64 42) (call 59 0 0) ≡ some (policy linux x86_64 42 (call 59 0 0))
result-policy_example = result-policy linux x86_64 42 (call 59 0 0)

result-IsAllowed_example : IsAllowed linux x86_64 42 (call 234 42 7)
unfolding program
result-IsAllowed_example =
    result-IsAllowed linux x86_64 42 (call 234 42 7) (omega arith) (omega arith) refl

abbrev grants : Request → Bool
grants r = true

confined : prepare grants 7 7 512 1500 ≡ ok tt
unfolding program
confined = refl

orphaned : prepare grants 1 7 512 1500 ≡ err (message "supervisor is unavailable")
unfolding program
orphaned = refl

prepare_iff_example : (prepare grants 7 7 512 1500 ≡ ok tt) ↔ IsConfined grants 7 7 512 1500
prepare_iff_example = prepare_iff grants 7 7 512 1500

cpu_seconds_bounds_example : (1500 + 1000 ≤ 3 * 1000) × (3 * 1000 < 1500 + 2000)
unfolding program
cpu_seconds_bounds_example = cpu_seconds_bounds 1500
