-- ===== src/Compiler/Wrapper.antt =====
-- The `_start` function that `wrapper` of native/javex_nif/src/compiler.rs builds, and a machine for the
-- instructions of WebAssembly that it uses. What the two functions of the provider do is a parameter.
pub mod Assemble
use javex.Base.{
  ℕ, zero, suc, Option, none, some, List, [], ◌∷◌, ◌++◌, Anyhow, message, ltb, if◌then◌else◌,
  Result, ok, err, ◌>>=◌, length,
}

-- The functions, the memory, the data and the local are the only ones of their kind.
pub data Instruction : Type 0 where
  i32_const : ℕ → Instruction
  call_realloc call_invoke local_tee local_get memory_init : Instruction

-- `i32::try_from(bytecode.len())`
unfoldable pub i32_len : List ℕ → Result Anyhow ℕ
i32_len bytecode =
    if ltb (length bytecode) 2_147_483_648
    then ok (length bytecode)
    else err (message "out of range integral type conversion attempted")

unfoldable pub start_code : ℕ → List Instruction
start_code len =
    i32_const 0
    ∷ i32_const 0
    ∷ i32_const 1
    ∷ i32_const len
    ∷ call_realloc
    ∷ local_tee
    ∷ i32_const 0
    ∷ i32_const len
    ∷ memory_init
    ∷ local_get
    ∷ i32_const len
    ∷ i32_const 0
    ∷ i32_const 0
    ∷ i32_const 0
    ∷ call_invoke
    ∷ []

-- The code for some bytecode, which becomes the passive data of the module.
unfoldable pub wrap : List ℕ → Result Anyhow (List Instruction)
unfolding i32_len start_code
wrap bytecode = i32_len bytecode >>= λ len. ok (start_code len)

-- What the code does to the provider, first to last.
pub data Effect : Type 0 where
  reallocs : ℕ → ℕ → ℕ → ℕ → Effect
  inits : ℕ → List ℕ → Effect
  invokes : ℕ → ℕ → ℕ → ℕ → ℕ → Effect

pub record Machine : Type 0 where
  pub stack : List ℕ
  pub slot : ℕ
  pub effects : List Effect

-- The bytes of a passive segment from an offset on, so many; none if there are not that many left.
unfoldable pub segment : ℕ → ℕ → List ℕ → Option (List ℕ)
segment zero zero bytes = some []
segment zero (suc len) [] = none
segment zero (suc len) (b ∷ bytes) = elim (segment zero len bytes) [
  | none ↦ none
  | some rest ↦ some (b ∷ rest)
]
segment (suc from) len [] = none
segment (suc from) len (b ∷ bytes) = segment from len bytes

module _ (allocate : ℕ → ℕ → ℕ → ℕ → ℕ) (bytecode : List ℕ) where
  abbrev pub effect : Machine → List ℕ → Effect → Machine
  effect m stack e = record m { stack = stack; effects = m.effects ++ e ∷ [] }

  -- One instruction; none if it traps, or the stack does not hold what it takes.
  unfoldable pub execute : Machine → Instruction → List ℕ → Option Machine
  execute m (i32_const n) stack = some (record m { stack = n ∷ stack })
  execute m call_realloc (d ∷ c ∷ b ∷ a ∷ stack) =
      some (effect m (allocate a b c d ∷ stack) (reallocs a b c d))
  execute m local_tee (n ∷ stack) = some (record m { stack = n ∷ stack; slot = n })
  execute m local_get stack = some (record m { stack = m.slot ∷ stack })
  execute m memory_init (len ∷ from ∷ to ∷ stack) = elim (segment from len bytecode) [
    | none ↦ none
    | some bytes ↦ some (effect m stack (inits to bytes))
  ]
  execute m call_invoke (e ∷ d ∷ c ∷ b ∷ a ∷ stack) = some (effect m stack (invokes a b c d e))
  execute m _ _ = none

  unfoldable pub run_code : Machine → List Instruction → Option Machine
  unfolding execute
  run_code m [] = some m
  run_code m (i ∷ code) = elim (execute m i m.stack) [ none ↦ none | some m' ↦ run_code m' code ]

abbrev pub fresh : Machine
fresh = record { stack = []; slot = 0; effects = [] }
