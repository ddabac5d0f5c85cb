-- ===== src/Isolation/Install.antt =====
-- `restrict_syscalls` of native/javex_nif/src/isolation.rs: its program is handed to the kernel, for all
-- threads. Whether the kernel takes it is an argument.
use javex.Base.{
  ℕ, ◌<◌, ◌≡◌, ◌↔◌, Bool, true, List, length, ltb, Anyhow, message, Result, ok, ensure, ◌>>◌, arith,
}
use javex.Isolation.{Arch, x86_64, aarch64, Libc, SockFilter, allowed, allow_each, filter}

module _ (libc : Libc) (installs : List SockFilter → Bool) where
  -- The length of a program is a `u16`.
  unfoldable pub restrict_syscalls : Arch → ℕ → Result Anyhow (Unit {0})
  restrict_syscalls arch pid = do
    ensure (ltb (length (filter libc arch pid)) 65_536)
        (message "out of range integral type conversion attempted")
    ensure (installs (filter libc arch pid)) (message "seccomp TSYNC")

  length-filter : (arch : Arch) (pid : ℕ) → length (filter libc arch pid) < 65_536
  unfolding filter allow_each allowed
  length-filter x86_64 pid = omega arith
  length-filter aarch64 pid = omega arith

  -- The policy is installed exactly if the kernel takes the program, which is never too long.
  pub restrict_syscalls_iff :
      (arch : Arch) (pid : ℕ)
      → (restrict_syscalls arch pid ≡ ok tt) ↔ (installs (filter libc arch pid) ≡ true)
  unfolding restrict_syscalls
  restrict_syscalls_iff arch pid =
      let short = length-filter arch pid in (λ h. ground (arith, short), λ h. ground (arith, short))
