-- ===== src/Plugin/Memory/Laws.antt =====
-- What is read from the guest's memory after a write.
use javex.Base.{
  ℕ, zero, suc, ◌+◌, ◌≤◌, ◌<◌, ◌≡◌, ◌⊎◌, inl, inr, refl, ap₂, ◌∙◌, List, [], ◌∷◌, length, arith,
  u32_mod,
}
use javex.Execution.{from_le_bytes}
use javex.Plugin.Memory.{Bytes, read, write, to_le_bytes}

-- Outside of what is written, a write changes nothing.
pub write-outside :
    (m : Bytes) (at : ℕ) (bytes : List ℕ) (q : ℕ)
    → (q < at) ⊎ (at + length bytes ≤ q)
    → write m at bytes q ≡ m q
unfolding write
write-outside m at [] q h = refl
write-outside m at (b ∷ bytes) q h = ground (arith, write-outside m (suc at) bytes q)

pub read-cong :
    (m m' : Bytes) (at count : ℕ)
    → ((q : ℕ) → at ≤ q → q < at + count → m q ≡ m' q)
    → read m at count ≡ read m' at count
unfolding read
read-cong m m' at zero h = refl
read-cong m m' at (suc count) h =
    ap₂ ◌∷◌ (h at (omega arith) (omega arith))
      (read-cong m m' (suc at) count (λ q low high. h q (omega (arith, low)) (omega (arith, high))))

-- What was written is read back.
pub read-write :
    (m : Bytes) (at : ℕ) (bytes : List ℕ) → read (write m at bytes) at (length bytes) ≡ bytes
unfolding read write
read-write m at [] = refl
read-write m at (b ∷ bytes) = ap₂ ◌∷◌ (ground arith) (
    read-cong (write m at (b ∷ bytes)) (write m (suc at) bytes) (suc at) (length bytes)
      (λ q low high. ground (arith, low))
    ∙ read-write m (suc at) bytes)

-- A write elsewhere is not seen.
pub read-write_apart :
    (m : Bytes) (at : ℕ) (bytes : List ℕ) (from count : ℕ)
    → (from + count ≤ at) ⊎ (at + length bytes ≤ from)
    → read (write m at bytes) from count ≡ read m from count
read-write_apart m at bytes from count apart =
    read-cong _ m from count (λ q low high. write-outside m at bytes q (side q low high apart))
  where
    side :
        (q : ℕ)
        → from ≤ q
        → q < from + count
        → (from + count ≤ at) ⊎ (at + length bytes ≤ from)
        → (q < at) ⊎ (at + length bytes ≤ q)
    side q low high (inl before) = inl (omega (arith, high, before))
    side q low high (inr after) = inr (omega (arith, low, after))

pub length-read : (m : Bytes) (at count : ℕ) → length (read m at count) ≡ count
unfolding read
length-read m at zero = refl
length-read m at (suc count) = omega (arith, length-read m (suc at) count)

-- A stored `u32` is read back as the number that it is.
pub from_le_bytes-to_le_bytes : (n : ℕ) → n < u32_mod → from_le_bytes (to_le_bytes n) ≡ n
unfolding to_le_bytes
from_le_bytes-to_le_bytes n h = omega (arith, h)
