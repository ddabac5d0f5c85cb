-- ===== src/Base/Utf8.antt =====
-- `str::from_utf8`: whether bytes are well-formed UTF-8 (RFC 3629).
use Prim.Native.Nat.{ℕ, zero, suc}
use mathlib.Core.Bool.{Bool, true, false, ◌&&◌}
use mathlib.Core.Option.{Option, none, some}
use mathlib.Core.List.{List, [], ◌∷◌}
use javex.Base.Tests.{ltb, leb, ◌==◌, if◌then◌else◌}
use javex.Base.Outcome.{Result, ok, err}
use javex.Base.Errors.{Anyhow, message}

-- How many bytes follow a first byte, and between which bounds the next of them lies.
pub record Follow : Type 0 where
  pub rest : ℕ
  pub low : ℕ
  pub high : ℕ

abbrev between : ℕ → ℕ → ℕ → Bool
between low high b = leb low b && leb b high

unfoldable pub lead : ℕ → Option Follow
lead b =
    if ltb b 0x80
    then some (record { rest = 0; low = 0x80; high = 0xbf })
    else if between 0xc2 0xdf b
    then some (record { rest = 1; low = 0x80; high = 0xbf })
    else if b == 0xe0
    then some (record { rest = 2; low = 0xa0; high = 0xbf })
    else if b == 0xed
    then some (record { rest = 2; low = 0x80; high = 0x9f })
    else if between 0xe1 0xef b
    then some (record { rest = 2; low = 0x80; high = 0xbf })
    else if b == 0xf0
    then some (record { rest = 3; low = 0x90; high = 0xbf })
    else if between 0xf1 0xf3 b
    then some (record { rest = 3; low = 0x80; high = 0xbf })
    else if b == 0xf4
    then some (record { rest = 3; low = 0x80; high = 0x8f })
    else none

-- So many bytes are still to follow, the next of them within the bounds.
unfoldable pub is_utf8_from : ℕ → ℕ → ℕ → List ℕ → Bool
unfolding lead
is_utf8_from zero low high [] = true
is_utf8_from (suc n) low high [] = false
is_utf8_from zero low high (b ∷ bytes) = elim (lead b) [
  | none ↦ false
  | some f ↦ is_utf8_from f.rest f.low f.high bytes
]
is_utf8_from (suc n) low high (b ∷ bytes) = elim (between low high b) [
  | false ↦ false
  | true ↦ is_utf8_from n 0x80 0xbf bytes
]

unfoldable pub from_utf8 : List ℕ → Result Anyhow (Unit {0})
unfolding is_utf8_from
from_utf8 bytes =
    if is_utf8_from 0 0x80 0xbf bytes then ok tt else err (message "invalid utf-8 sequence")
