-- ===== src/Cache/Tests.antt =====
-- Runs of the cache model: modules are numbers that give the size of their image.
use javex.Base.{
  ℕ, ◌+◌, ◌<◌, ◌≡◌, refl, some, List, [], ◌∷◌, ◌++◌, arith, drop, ok, ℕ_discrete, wrapping_add,
  wrapping_sub,
}
use javex.Cache.{
  Image, Entry, CacheOptions, Cache, remove, is_full, evict, position, get, contains, insert, empty,
  stats,
}
use javex.Cache.Find.{find, without, after_get, get-find}
use javex.Cache.Evict.{Fits}
use javex.Cache.Invariant.{IsValid}
use javex.Cache.Insert.{IsCacheable, fresh, insert_new, insert_least, insert-IsValid, get-insert}
use javex.Cache.History.{Call, gets, inserts, step, run, run-IsValid}
use javex.Cache.Recent.{IsRecent, history, used, run-empty-IsRecent}
use javex.Cache.Origin.{get-run_sound}

program : Unit {0}
unfolding remove is_full evict position get contains insert empty stats step run find without
    after_get used history ℕ_discrete wrapping_add wrapping_sub
program = tt

abbrev image : ℕ → Image
image m = record { start = 100; stop = 100 + m }

abbrev entry : ℕ → ℕ → Entry ℕ ℕ
entry k m = record { key = k; compiled = m; size = m }

abbrev limits : CacheOptions
limits = record { max_cache_bytes = 10; max_cached_modules = 3 }

-- Three inserts, a hit on the oldest, and an insert that needs the room of two.
abbrev calls : List (Call ℕ ℕ)
calls = inserts 1 3 ∷ inserts 2 3 ∷ inserts 3 4 ∷ gets 1 ∷ inserts 4 5 ∷ inserts 5 11 ∷ []

abbrev final : Cache ℕ ℕ
final = record { entries = entry 1 3 ∷ entry 4 5 ∷ []; bytes = 8; hits = 1; limits = limits }

expected_queue : run ℕ_discrete image (empty limits) calls ≡ ok final
unfolding program
expected_queue = refl

final_counts : stats final ≡ record { cached_modules = 2; cache_bytes = 8; cache_hits = 1 }
unfolding program
final_counts = refl

final-IsValid : IsValid ℕ_discrete final
unfolding program
final-IsValid = record {
  word = omega arith;
  counted = refl;
  within = omega arith;
  bounded = omega arith;
  distinct = (refl, (refl, tt));
}

get-find_example :
    get ℕ_discrete final 4 ≡ ok (after_get ℕ_discrete final 4 (some (entry 4 5)), some 5)
unfolding program
get-find_example = get-find ℕ_discrete final 4

insert-IsValid_example :
    (c : Cache ℕ ℕ) × (insert ℕ_discrete image final 6 7 ≡ ok c) × IsValid ℕ_discrete c
insert-IsValid_example = insert-IsValid ℕ_discrete image final 6 7 final-IsValid

run-IsValid_example :
    (c : Cache ℕ ℕ) × (run ℕ_discrete image final calls ≡ ok c) × IsValid ℕ_discrete c
run-IsValid_example = run-IsValid ℕ_discrete image final calls final-IsValid

cacheable : IsCacheable ℕ_discrete image final 4
unfolding program
cacheable = record { small = omega arith; some_modules = omega arith }

-- One entry has to go.
abbrev after : Cache ℕ ℕ
after = record final { entries = entry 4 5 ∷ entry 6 4 ∷ []; bytes = 9 }

insert_new_example :
    (n : ℕ) × (after.entries ≡ drop n final.entries ++ fresh ℕ_discrete image 6 4 ∷ [])
    × Fits limits (wrapping_sub 104 100) (drop n final.entries)
    × (after.limits ≡ limits)
    × (after.hits ≡ 1)
unfolding program
insert_new_example = insert_new ℕ_discrete image final 6 4 final-IsValid cacheable refl after refl

insert_least_example : ¬ Fits limits (wrapping_sub 104 100) (drop 0 final.entries)
unfolding program
insert_least_example =
    insert_least ℕ_discrete image final 6 4 final-IsValid cacheable refl after 0 refl (omega arith)

get-insert_example : (c : Cache ℕ ℕ) × (get ℕ_discrete after 6 ≡ ok (c, some 4))
unfolding program
get-insert_example = get-insert ℕ_discrete image final 6 4 final-IsValid cacheable refl after refl

run-empty-IsRecent_example :
    IsRecent ℕ_discrete image final.entries (history ℕ_discrete image [] (empty limits) calls)
unfolding program
run-empty-IsRecent_example =
    run-empty-IsRecent ℕ_discrete image limits calls final (omega arith) refl

-- Here every module is larger than nothing.
get-run_sound_example : 0 < 5
unfolding program
get-run_sound_example =
    get-run_sound ℕ_discrete image (λ k m. 0 < m) limits calls final
      (after_get ℕ_discrete final 4 (some (entry 4 5))) 4 5 (omega arith) (omega arith) refl refl
