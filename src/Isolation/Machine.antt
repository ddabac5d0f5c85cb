-- ===== src/Isolation/Machine.antt =====
-- The kernel's machine for the three instructions that native/javex_nif/src/isolation.rs uses, and the
-- data of a system call that it reads (seccomp(2)).
use javex.Base.{ℕ, zero, suc, Option, none, some, List, [], ◌∷◌, ◌==◌, if◌then◌else◌}
use javex.Isolation.{SockFilter, Code}

-- `seccomp_data`, with the low words of the first two arguments.
pub record SeccompData : Type 0 where
  pub nr : ℕ
  pub arch : ℕ
  pub arg0 : ℕ
  pub arg1 : ℕ

-- The word at an offset of the data.
unfoldable pub word_at : SeccompData → ℕ → ℕ
word_at d k =
    if k == 0
    then d.nr
    else if k == 4
    then d.arch
    else if k == 16
    then d.arg0
    else if k == 24
    then d.arg1
    else 0

-- Jumps go forward only: `execute n` leaves out `n` instructions first. A program that runs off its end
-- has no result.
unfoldable pub execute : ℕ → List SockFilter → ℕ → SeccompData → Option ℕ
execute n [] acc d = none
execute zero (i ∷ p) acc d = elim i.code [
  | Code.load ↦ execute 0 p (word_at d i.k) d
  | Code.equal ↦ execute (if acc == i.k then i.jt else i.jf) p acc d
  | Code.return ↦ some i.k
]
execute (suc n) (i ∷ p) acc d = execute n p acc d

-- A program starts with an empty accumulator.
abbrev pub result : List SockFilter → SeccompData → Option ℕ
result p d = execute 0 p 0 d
