-- ===== src/Limiter/Tests.antt =====
-- Runs of the limiter, with limits that allow each memory 100 bytes and each table 10 elements.
use javex.Base.{
  ℕ, ◌≤◌, ◌≡◌, refl, Bool, true, false, none, List, [], ◌∷◌, arith, leb, ok, wrapping_add,
  wrapping_sub, saturating_sub,
}
use javex.Limiter.{StoreLimits, Limiter, memory_growing, table_growing}
use javex.Limiter.Growth.{Request, memory, table, grow, run, run_new}

abbrev limits : StoreLimits
limits = record {
  Limits = Unit {0};
  grow_memory = λ l current desired maximum. (ok (leb desired 100), l);
  grow_table = λ l current desired maximum. (ok (leb desired 10), l);
}

abbrev requests : List Request
requests = memory 0 60 none ∷ table 0 5 none ∷ memory 0 70 none ∷ memory 60 80 none ∷ []

abbrev start : Limiter (Unit {0})
start = record { limits = tt; memory_bytes = 0; max_memory = 90; exceeded = false }

requests_answered : run limits start requests ≡ (
  true ∷ true ∷ false ∷ true ∷ [],
  record { limits = tt; memory_bytes = 80; max_memory = 90; exceeded = true },
)
unfolding run grow memory_growing table_growing saturating_sub wrapping_sub wrapping_add
requests_answered = refl

run_new_example : (80 ≤ 90) × (◌≡◌ {A = ℕ} 80 80) × (◌≡◌ {A = Bool} true true)
unfolding run grow memory_growing table_growing saturating_sub wrapping_sub wrapping_add
run_new_example = run_new limits tt 90 requests (omega arith)
