-- ===== src/Isolation/Prepare.antt =====
-- `prepare` of native/javex_nif/src/isolation.rs: what the child asks of the kernel before it reads
-- anything. Whether the kernel grants a call is an argument.
use javex.Base.{
  ℕ, ◌+◌, ◌*◌, ◌/◌, ◌%◌, ◌≤◌, ◌<◌, ◌≡◌, ◌↔◌, Bool, true, ◌&&◌, Anyhow, message, ◌==◌, if◌then◌else◌,
  Result, ok, ensure, ◌>>◌, arith,
}

pub data Resource : Type 0 where
  address_space cpu open_files core file_size : Resource

pub data Request : Type 0 where
  set_pdeathsig set_dumpable set_no_new_privs close_range : Request
  set_limit : Resource → ℕ → Request

-- `u64::div_ceil`
abbrev pub div_ceil : ℕ → ℕ → ℕ
div_ceil a b = if a % b == 0 then a / b else a / b + 1

-- The limit on CPU seconds.
unfoldable pub cpu_seconds : ℕ → ℕ
cpu_seconds timeout_ms = div_ceil timeout_ms 1000 + 1

module _ (grants : Request → Bool) (ppid : ℕ) where
  unfoldable pub limit : Resource → ℕ → Result Anyhow (Unit {0})
  limit resource value = ensure (grants (set_limit resource value)) (message "setrlimit")

  unfoldable pub prepare : ℕ → ℕ → ℕ → Result Anyhow (Unit {0})
  unfolding limit
  prepare parent memory timeout_ms = do
    ensure (grants set_pdeathsig && (ppid == parent)) (message "supervisor is unavailable")
    ensure (grants set_dumpable && grants set_no_new_privs)
        (message "cannot drop process privileges")
    ensure (grants close_range) (message "close_range is required")
    limit address_space memory
    limit cpu (cpu_seconds timeout_ms)
    limit open_files 64
    limit core 0
    limit file_size memory

  -- Everything that `prepare` needs.
  pub record IsConfined (parent memory timeout_ms : ℕ) : Type 0 where
    pub supervised : ppid ≡ parent
    pub dies_with_parent : grants set_pdeathsig ≡ true
    pub not_dumpable : grants set_dumpable ≡ true
    pub no_new_privs : grants set_no_new_privs ≡ true
    pub closed : grants close_range ≡ true
    pub space : grants (set_limit address_space memory) ≡ true
    pub time : grants (set_limit cpu (cpu_seconds timeout_ms)) ≡ true
    pub files : grants (set_limit open_files 64) ≡ true
    pub no_core : grants (set_limit core 0) ≡ true
    pub size : grants (set_limit file_size memory) ≡ true

  -- The child goes on exactly if its parent is the supervisor and every one of the nine restrictions
  -- was granted.
  pub prepare_iff :
      (parent memory timeout_ms : ℕ)
      → (prepare parent memory timeout_ms ≡ ok tt) ↔ IsConfined parent memory timeout_ms
  unfolding prepare
  prepare_iff parent memory timeout_ms = (λ h. ground arith, λ c. ground arith)

-- The CPU limit covers the timeout, with one second to spare and less than two.
pub cpu_seconds_bounds :
    (timeout_ms : ℕ)
    → (timeout_ms + 1000 ≤ cpu_seconds timeout_ms * 1000)
      × (cpu_seconds timeout_ms * 1000 < timeout_ms + 2000)
unfolding cpu_seconds
cpu_seconds_bounds timeout_ms = ground arith
