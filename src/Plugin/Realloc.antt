-- ===== src/Plugin/Realloc.antt =====
-- `cabi_realloc` of native/javex_plugin/src/lib.rs, through which the host gets room for what it passes
-- in and gives it back. The allocator is a parameter; addresses have 32 bits.
pub mod Laws
use javex.Base.{
  ℕ, zero, suc, ◌+◌, ◌-◌, ◌*◌, ◌^◌, min, Bool, true, false, ◌&&◌, ◌||◌, Option, none, some, Anyhow,
  message, ltb, leb, ◌==◌, if◌then◌else◌,
}
use javex.Plugin.{Ends, returns, panics, aborts}
use javex.Plugin.Memory.{Bytes, copy_nonoverlapping}

-- `std::alloc::alloc` and `dealloc`, which may write to the memory too; the null pointer is address 0.
pub record Allocator : Type 1 where
  pub State : Type 0
  pub alloc : State × Bytes → ℕ → ℕ → (State × Bytes) × ℕ
  pub dealloc : State × Bytes → ℕ → ℕ → ℕ → State × Bytes

-- `usize::is_power_of_two`, looked for below `2 ^ n`.
unfoldable pub is_power_of_two : ℕ → ℕ → Bool
is_power_of_two zero align = false
is_power_of_two (suc n) align = (align == 2 ^ n) || is_power_of_two n align

-- Whether `Layout::from_size_align` succeeds: the size, rounded up to the alignment, is an `isize`.
unfoldable pub is_layout : ℕ → ℕ → Bool
unfolding is_power_of_two
is_layout size align = is_power_of_two 32 align && leb (size + (align - 1)) 2_147_483_647

module _ (allocator : Allocator) where
  open allocator use {State, alloc, dealloc}

  -- `dealloc(ptr, Layout::from_size_align(old, align).unwrap())`, for a block of some bytes
  unfoldable pub free_block : ℕ → ℕ → ℕ → ℕ → State × Bytes → Ends (State × Bytes) ℕ
  free_block ptr old align answer here =
      if old == 0
      then returns here answer
      else if is_layout old align
      then returns (dealloc here ptr old align) answer
      else panics

  -- Once the new block is there: what was in the old one moves, and the old one is given back.
  unfoldable pub move_block : ℕ → ℕ → ℕ → ℕ → (State × Bytes) × ℕ → Ends (State × Bytes) ℕ
  unfolding free_block
  move_block ptr old align size ((s, m), new) =
      if new == 0
      then aborts (message "")
      else if old == 0
      then returns (s, m) new
      else free_block ptr old align new (s, copy_nonoverlapping m ptr new (min old size))

  unfoldable pub realloc : ℕ → ℕ → ℕ → ℕ → State × Bytes → Ends (State × Bytes) ℕ
  unfolding move_block
  realloc ptr old align size here =
      if size == 0
      then free_block ptr old align align here
      else if is_layout size align
      then move_block ptr old align size (alloc here size align)
      else panics
