-- ===== src/Isolation/Policy.antt =====
-- What the filter of native/javex_nif/src/isolation.rs decides, for any numbers of the system calls.
use javex.Base.{
  ℕ, ◌≡◌, ◌≢◌, inl, inr, refl, sym, ◌∙◌, Bool, true, false, ◌||◌, some, List, [], ◌∷◌, ◌++◌, map,
  ◌==◌, if◌then◌else◌, arith, Bool-cases, ==_iff,
}
use javex.Isolation.{
  Arch, Syscall, Libc, SockFilter, instruction, arch_number, allowed, commands, as_u32, allow_each,
  filter,
}
use javex.Isolation.Machine.{SeccompData, word_at, execute, result}

-- The number is one of a list, as a `u32`.
unfoldable pub is_one_of : ℕ → List ℕ → Bool
is_one_of nr [] = false
is_one_of nr (n ∷ ns) = (nr == as_u32 n) || is_one_of nr ns

module _ (libc : Libc) where
  open libc use {number, command, ret_allow, ret_deny, ret_kill_process}

  -- The policy: another architecture kills the process; the listed calls are allowed; `tgkill` is
  -- allowed to the process itself, and `fcntl` with a listed command; all else is denied.
  unfoldable pub policy : Arch → ℕ → SeccompData → ℕ
  policy arch pid d =
      if d.arch == arch_number arch
      then if is_one_of d.nr (map number (allowed arch))
        then ret_allow
        else if d.nr == as_u32 (number Syscall.tgkill)
        then if d.arg0 == pid then ret_allow else ret_deny
        else if d.nr == as_u32 (number Syscall.fcntl)
        then if is_one_of d.arg1 (map command commands) then ret_allow else ret_deny
        else ret_deny
      else ret_kill_process

  execute-allow_each :
      (ns : List ℕ) (rest : List SockFilter) (acc : ℕ) (d : SeccompData)
      → execute 0 (allow_each libc ns ++ rest) acc d
        ≡ (if is_one_of acc ns then some ret_allow else execute 0 rest acc d)
  unfolding allow_each is_one_of execute
  execute-allow_each [] rest acc d = refl
  execute-allow_each (n ∷ ns) rest acc d = elim (Bool-cases (acc == as_u32 n)) [
    | inl same ↦ rw (same, execute)
    | inr other ↦ rw (other, execute) (execute-allow_each ns rest acc d)
  ]

  -- The filter returns, for every system call, what the policy says.
  pub result-policy :
      (arch : Arch) (pid : ℕ) (d : SeccompData)
      → result (filter libc arch pid) d ≡ some (policy arch pid d)
  unfolding filter policy execute word_at instruction
  result-policy arch pid d = elim (Bool-cases (d.arch == arch_number arch)) [
    | inr foreign ↦ rw (foreign, execute)
    | inl native ↦
        rw (native, execute, execute-allow_each)
          (elim (Bool-cases (is_one_of d.nr (map number (allowed arch)))) [
            | inl listed ↦ rw listed
            | inr unlisted ↦ elim (Bool-cases (d.nr == as_u32 (number Syscall.tgkill))) [
              | inl kills ↦ elim (Bool-cases (d.arg0 == pid)) [
                | inl own ↦ rw (unlisted, kills, execute, own, execute)
                | inr alien ↦ rw (unlisted, kills, execute, alien, execute)
              ]
              | inr other ↦ elim (Bool-cases (d.nr == as_u32 (number Syscall.fcntl))) [
                | inr never ↦ rw (unlisted, other, execute, never, execute)
                | inl controls ↦
                    rw (unlisted, other, execute, controls, execute, execute-allow_each)
                      (elim (Bool-cases (is_one_of d.arg1 (map command commands))) [
                        | inl good ↦ rw good
                        | inr bad ↦ rw bad
                      ])
              ]
            ]
          ])
  ]

  -- What is allowed at all: on the right architecture, a listed call, `tgkill` of the process itself,
  -- or `fcntl` with a listed command.
  pub data IsAllowed (arch : Arch) (pid : ℕ) (d : SeccompData) : Type 0 where
    listed :
        d.arch ≡ arch_number arch
        → is_one_of d.nr (map number (allowed arch)) ≡ true
        → IsAllowed arch pid d
    own_thread :
        d.arch ≡ arch_number arch
        → d.nr ≡ as_u32 (number Syscall.tgkill)
        → d.arg0 ≡ pid
        → IsAllowed arch pid d
    descriptor :
        d.arch ≡ arch_number arch
        → d.nr ≡ as_u32 (number Syscall.fcntl)
        → is_one_of d.arg1 (map command commands) ≡ true
        → IsAllowed arch pid d

  module _ (arch : Arch) (pid : ℕ) (d : SeccompData) (deny : ret_allow ≢ ret_deny)
      (kill : ret_allow ≢ ret_kill_process) where
    native-IsAllowed :
        d.arch ≡ arch_number arch → policy arch pid d ≡ ret_allow → IsAllowed arch pid d
    unfolding policy
    native-IsAllowed native done = elim (Bool-cases (is_one_of d.nr (map number (allowed arch)))) [
      | inl l ↦ listed native l
      | inr unlisted ↦ elim (Bool-cases (d.nr == as_u32 (number Syscall.tgkill))) [
        | inl kills ↦ own_thread native ((==_iff _ _).0 kills) (ground arith)
        | inr other ↦ elim (Bool-cases (d.nr == as_u32 (number Syscall.fcntl))) [
          | inl controls ↦ descriptor native ((==_iff _ _).0 controls) (ground arith)
          | inr never ↦ absurd (ground arith)
        ]
      ]
    ]

    policy-IsAllowed : policy arch pid d ≡ ret_allow → IsAllowed arch pid d
    policy-IsAllowed done = elim (Bool-cases (d.arch == arch_number arch)) [
      | inl native ↦ native-IsAllowed ((==_iff _ _).0 native) done
      | inr foreign ↦ absurd (refuse foreign done)
    ]
      where
        refuse : (d.arch == arch_number arch) ≡ false → policy arch pid d ≡ ret_allow → ⊥
        refuse foreign done = unfold policy in kill (sym (rw foreign at done))

  -- If the verdict to allow differs from the two others, nothing else gets through the filter.
  pub result-IsAllowed :
      (arch : Arch) (pid : ℕ) (d : SeccompData)
      → ret_allow ≢ ret_deny
      → ret_allow ≢ ret_kill_process
      → result (filter libc arch pid) d ≡ some ret_allow
      → IsAllowed arch pid d
  result-IsAllowed arch pid d deny kill done =
      policy-IsAllowed arch pid d deny kill (same (sym (result-policy arch pid d) ∙ done))
    where
      same : {a b : ℕ} → some a ≡ some b → a ≡ b
      same e = cc
