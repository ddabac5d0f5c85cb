-- ===== src/Budgets/Bounds.antt =====
-- The frame limits of native/javex_nif/src/sandbox.rs against the exact sums: saturation never shows.
use javex.Base.{
  ℕ, ◌+◌, ◌*◌, ◌≤◌, ◌<◌, ◌≡◌, min, arith, u32_mod, usize_max, saturating_add, saturating_mul,
}
use javex.Budgets.{Budgets, callback_request_limit, callback_completion_limit}

-- The fields that the source declares as `u32`.
pub record AreU32 (b : Budgets) : Type 0 where
  pub concurrency : b.max_callback_concurrency < u32_mod
  pub input : b.max_callback_input < u32_mod
  pub output : b.max_callback_output < u32_mod

-- A request frame may hold, for each concurrent call, its input escaped to six bytes for each, and
-- 2048 bytes, with 4096 more for the frame; 64 MiB at most, and 4096 bytes at least.
pub callback_request_limit-eq :
    (b : Budgets)
    → AreU32 b
    → (callback_request_limit b
        ≡ min (b.max_callback_concurrency * (b.max_callback_input * 6 + 2048) + 4096) 67_108_864)
      × (4096 ≤ callback_request_limit b)
unfolding callback_request_limit saturating_add saturating_mul
callback_request_limit-eq b u =
    rw inner (outer (b.max_callback_concurrency * (b.max_callback_input * 6 + 2048)))
  where
    inner :
        saturating_add (saturating_mul b.max_callback_input 6) 2048
        ≡ b.max_callback_input * 6 + 2048
    inner = omega (arith, u.input)

    outer :
        (p : ℕ)
        → (min (saturating_add (min p usize_max) 4096) 67_108_864 ≡ min (p + 4096) 67_108_864)
          × (4096 ≤ min (saturating_add (min p usize_max) 4096) 67_108_864)
    outer p = omega arith

-- A completion frame may hold the output of a call, escaped, and 4096 bytes; 64 MiB at most.
pub callback_completion_limit-eq :
    (b : Budgets)
    → AreU32 b
    → (callback_completion_limit b ≡ min (b.max_callback_output * 6 + 4096) 67_108_864)
      × (4096 ≤ callback_completion_limit b)
unfolding callback_completion_limit saturating_add saturating_mul
callback_completion_limit-eq b u = omega arith

-- For any budgets at all, both limits lie between 4096 bytes and 64 MiB.
pub request_range :
    (b : Budgets) → (4096 ≤ callback_request_limit b) × (callback_request_limit b ≤ 67_108_864)
unfolding callback_request_limit saturating_add
request_range b = omega arith

pub completion_range :
    (b : Budgets)
    → (4096 ≤ callback_completion_limit b) × (callback_completion_limit b ≤ 67_108_864)
unfolding callback_completion_limit saturating_add
completion_range b = omega arith
