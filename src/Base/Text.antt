-- ===== src/Base/Text.antt =====
-- Rust's strings as bytes: the UTF-8 of a native text.
use Prim.Native.Nat.{ℕ, ◌+◌, ◌/◌, ◌%◌}
use Prim.Native.Char.{code}
use Prim.Native.String.{String}
use mathlib.Core.List.{List, [], ◌∷◌, ◌++◌}
use javex.Base.Tests.{ltb, if◌then◌else◌}

-- The UTF-8 of one code point.
unfoldable pub encode_char : ℕ → List ℕ
encode_char c =
    if ltb c 0x80
    then c ∷ []
    else if ltb c 0x800
    then (0xc0 + c / 64) ∷ (0x80 + c % 64) ∷ []
    else if ltb c 0x10000
    then (0xe0 + c / 4096) ∷ (0x80 + c / 64 % 64) ∷ (0x80 + c % 64) ∷ []
    else (0xf0 + c / 262144) ∷ (0x80 + c / 4096 % 64) ∷ (0x80 + c / 64 % 64) ∷ (0x80 + c % 64) ∷ []

-- `String::into_bytes`
unfoldable pub into_bytes : String → List ℕ
unfolding encode_char
into_bytes String.[] = []
into_bytes (String.◌∷◌ c s) = encode_char (code c) ++ into_bytes s
