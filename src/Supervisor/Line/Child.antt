-- ===== src/Supervisor/Line/Child.antt =====
-- The child reads what the supervisor wrote (native/javex_nif/src/worker.rs).
use javex.Base.{ℕ, ◌<◌, ◌≡◌, refl, List, into_bytes, ok, arith}
use javex.Supervisor.{Args, check_args}
use javex.Supervisor.Line.{u32_limit, u64_limit, child, number_at, choose, read_args, child_args}
use javex.Supervisor.Line.Numbers.{parse-to_string}

accepted-bounds :
    (a : Args)
    → check_args a ≡ ok tt
    → (a.memory < u64_limit) × (a.timeout < u64_limit) × (a.maximum < u64_limit)
unfolding check_args
accepted-bounds a accepted =
    (ground (arith, accepted), ground (arith, accepted), ground (arith, accepted))

-- If the supervisor accepted its own arguments, the child that it starts reads the same memory, timeout
-- and maximum, and its supervisor's process id, which has 32 bits; and it acts as a child.
pub read_args-child_args :
    (exe : List ℕ) (pid : ℕ) (a : Args)
    → pid < u32_limit
    → check_args a ≡ ok tt
    → read_args (child_args exe pid a) ≡ ok (child pid a)
unfolding read_args child_args number_at choose into_bytes
read_args-child_args exe pid a small accepted =
    let (memory, timeout, maximum) = accepted-bounds a accepted in
    let m = parse-to_string u64_limit a.memory memory in
    let t = parse-to_string u64_limit a.timeout timeout in
    let x = parse-to_string u64_limit a.maximum maximum in
    let p = parse-to_string u32_limit pid small in rw (m, t, x, accepted, p) refl
