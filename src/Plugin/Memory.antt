-- ===== src/Plugin/Memory.antt =====
-- The memory of the guest (native/javex_plugin/src/lib.rs): a byte at each address.
pub mod Laws
use javex.Base.{ℕ, zero, suc, ◌+◌, ◌/◌, ◌%◌, ◌==◌, if◌then◌else◌, List, [], ◌∷◌}

abbrev pub Bytes : Type 0
Bytes = ℕ → ℕ

unfoldable pub read : Bytes → ℕ → ℕ → List ℕ
read m at zero = []
read m at (suc count) = m at ∷ read m (suc at) count

unfoldable pub write : Bytes → ℕ → List ℕ → Bytes
write m at [] = m
write m at (b ∷ bytes) = λ q. if q == at then b else write m (suc at) bytes q

-- `ptr::copy_nonoverlapping`
unfoldable pub copy_nonoverlapping : Bytes → ℕ → ℕ → ℕ → Bytes
unfolding read write
copy_nonoverlapping m from to count = write m to (read m from count)

-- A `u32` as the guest stores it.
unfoldable pub to_le_bytes : ℕ → List ℕ
to_le_bytes n = n % 256 ∷ n / 256 % 256 ∷ n / 65536 % 256 ∷ n / 16777216 % 256 ∷ []
