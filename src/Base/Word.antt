-- ===== src/Base/Word.antt =====
-- Machine words: `usize` and `u64` of a 64-bit target, and `u32`, as native numbers.
use Prim.Native.Nat.{ℕ, ◌+◌, ◌-◌, ◌*◌, ◌%◌, ◌^◌, ◌≤◌, ◌<◌, min}
use mathlib.Core.Path.{◌≡◌}
use native.Mathlib.Omega.{arith}

abbrev pub u32_mod : ℕ
u32_mod = 2 ^ 32

abbrev pub usize_mod : ℕ
usize_mod = 2 ^ 64

-- `usize::MAX`
abbrev pub usize_max : ℕ
usize_max = 2 ^ 64 - 1

-- `a + b`, `a - b` and `a += 1` on `usize`, as a release build computes them.
unfoldable pub wrapping_add : ℕ → ℕ → ℕ
wrapping_add a b = (a + b) % usize_mod

unfoldable pub wrapping_sub : ℕ → ℕ → ℕ
wrapping_sub a b = (a + usize_mod - b) % usize_mod

-- `usize::saturating_add`, `saturating_mul` and `saturating_sub`
unfoldable pub saturating_add : ℕ → ℕ → ℕ
saturating_add a b = min (a + b) usize_max

unfoldable pub saturating_mul : ℕ → ℕ → ℕ
saturating_mul a b = min (a * b) usize_max

unfoldable pub saturating_sub : ℕ → ℕ → ℕ
saturating_sub a b = a - b

pub wrapping_sub-eq : (a b : ℕ) → a < usize_mod → b ≤ a → wrapping_sub a b ≡ a - b
unfolding wrapping_sub
wrapping_sub-eq a b h k = omega arith

pub wrapping_add-eq : (a b : ℕ) → a + b < usize_mod → wrapping_add a b ≡ a + b
unfolding wrapping_add
wrapping_add-eq a b h = omega arith

pub wrapping_sub-lt : (a b : ℕ) → wrapping_sub a b < usize_mod
unfolding wrapping_sub
wrapping_sub-lt a b = omega arith
