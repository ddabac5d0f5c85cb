-- ===== src/Limiter/Growth.antt =====
-- Any requests to grow, of any memory or table, against the budget of `Limiter`
-- (native/javex_nif/src/sandbox.rs).
use javex.Base.{
  ℕ, ◌+◌, ◌-◌, ◌≤◌, ◌<◌, ◌≡◌, refl, ◌∙◌, Bool, false, not, ◌||◌, Option, List, [], ◌∷◌, arith,
  Anyhow, if◌then◌else◌, Result, usize_mod, wrapping_sub-eq, wrapping_add-eq, saturating_sub, ltb,
  Bool-cases, inl, inr, wrapping_sub, wrapping_add,
}
use javex.Limiter.{StoreLimits, Limiter, granted, memory_growing, table_growing}

-- The budget is a word and not overdrawn.
pub record IsWithin {L : Type 0} (l : Limiter L) : Type 0 where
  pub word : l.max_memory < usize_mod
  pub within : l.memory_bytes ≤ l.max_memory

pub data Request : Type 0 where
  memory : ℕ → ℕ → Option ℕ → Request
  table : ℕ → ℕ → Option ℕ → Request

-- The bytes that a request adds to a memory.
abbrev pub growth : Request → ℕ
growth (memory current desired maximum) = desired - current
growth (table current desired maximum) = 0

-- The bytes that were granted, and whether anything was refused.
abbrev pub granted_bytes : List Request → List Bool → ℕ
granted_bytes [] answers = 0
granted_bytes (r ∷ rs) [] = 0
granted_bytes (r ∷ rs) (a ∷ answers) = (if a then growth r else 0) + granted_bytes rs answers

abbrev pub refused : List Bool → Bool
refused [] = false
refused (a ∷ answers) = not a || refused answers

module _ (s : StoreLimits) where
  unfoldable pub grow : Limiter s.Limits → Request → Result Anyhow Bool × Limiter s.Limits
  grow l (memory current desired maximum) = memory_growing s l current desired maximum
  grow l (table current desired maximum) = table_growing s l current desired maximum

  -- What one request does to the budget and to the flag.
  pub record Grows (l l' : Limiter s.Limits) (r : Request) (answer : Bool) : Type 0 where
    pub within : IsWithin l'
    pub same : l'.max_memory ≡ l.max_memory
    pub counted : l'.memory_bytes ≡ l.memory_bytes + (if answer then growth r else 0)
    pub flagged : l'.exceeded ≡ (l.exceeded || not answer)

  grow-Grows :
      (l : Limiter s.Limits) (r : Request)
      → IsWithin l
      → Grows l (grow l r).1 r (granted (grow l r).0)
  unfolding grow memory_growing table_growing saturating_sub
  grow-Grows l (memory current desired maximum) w =
      let free = wrapping_sub-eq l.max_memory l.memory_bytes w.word w.within in
      let answer = granted (s.grow_memory l.limits current desired maximum).0 in
      elim (Bool-cases (ltb (wrapping_sub l.max_memory l.memory_bytes) (desired - current))) [
        | inl over ↦
            rw (over, memory_growing)
              (record {
                within = record { word = w.word; within = w.within };
                same = refl;
                counted = omega arith;
                flagged = ground arith;
              })
        | inr fits ↦
            let room : desired - current ≤ l.max_memory - l.memory_bytes = ground (arith, free) in
            let sum : wrapping_add l.memory_bytes (desired - current)
                ≡ l.memory_bytes + (desired - current) =
              wrapping_add-eq l.memory_bytes (desired - current)
                (omega (arith, w.word, w.within, room)) in
            elim (Bool-cases answer) [
              | inl yes_ ↦
                  rw (fits, memory_growing, yes_, sum)
                    (record {
                      within = record { word = w.word; within = omega (arith, w.within, room) };
                      same = refl;
                      counted = refl;
                      flagged = refl;
                    })
              | inr no_ ↦
                  rw (fits, memory_growing, no_)
                    (record {
                      within = record { word = w.word; within = w.within };
                      same = refl;
                      counted = omega arith;
                      flagged = refl;
                    })
            ]
      ]
  grow-Grows l (table current desired maximum) w = record {
    within = record { word = w.word; within = w.within };
    same = refl;
    counted = ground arith;
    flagged = refl;
  }

  unfoldable pub run : Limiter s.Limits → List Request → List Bool × Limiter s.Limits
  run l [] = ([], l)
  run l (r ∷ rs) =
      let (result, l') = grow l r in
      let (answers, l'') = run l' rs in (granted result ∷ answers, l'')

  run-Grows :
      (l : Limiter s.Limits) (rs : List Request)
      → IsWithin l
      → IsWithin (run l rs).1
        × ((run l rs).1.max_memory ≡ l.max_memory)
        × ((run l rs).1.memory_bytes ≡ l.memory_bytes + granted_bytes rs (run l rs).0)
        × ((run l rs).1.exceeded ≡ (l.exceeded || refused (run l rs).0))
  unfolding run
  run-Grows l [] w = (w, refl, omega arith, ground arith)
  run-Grows l (r ∷ rs) w =
      let g = grow-Grows l r w in
      let (within, same, counted, flagged) = run-Grows (grow l r).1 rs g.within in
      (
        within,
        same ∙ g.same,
        omega (arith, counted, g.counted),
        flagged ∙ ground (arith, g.flagged),
      )

  -- Whatever wasmtime's own limits answer, the growth that the limiter of a new store, with a
  -- budget below 2^64, grants to all memories together stays within the budget, the byte count is
  -- exactly that growth, and the flag is set exactly when some memory or table was refused.
  pub run_new :
      (limits : s.Limits) (max_memory : ℕ) (rs : List Request)
      → max_memory < usize_mod
      → let r =
          run
            (record {
              limits = limits;
              memory_bytes = 0;
              max_memory = max_memory;
              exceeded = false;
            })
            rs in
        (granted_bytes rs r.0 ≤ max_memory)
        × (r.1.memory_bytes ≡ granted_bytes rs r.0)
        × (r.1.exceeded ≡ refused r.0)
  run_new limits max_memory rs word =
      let l : Limiter s.Limits = record {
        limits = limits;
        memory_bytes = 0;
        max_memory = max_memory;
        exceeded = false;
      } in
      let (within, same, counted, flagged) =
        run-Grows l rs (record { word = word; within = omega arith }) in
      (omega (arith, counted, same, within.within), omega (arith, counted), flagged)
