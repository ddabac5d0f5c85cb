-- ===== src/Cache/History.antt =====
-- Whole runs of `Cache` (native/javex_nif/src/sandbox.rs), as `Execution::start` drives it: no panic,
-- the budgets, where a cached module comes from, and the order of eviction.
use javex.Base.{◌≡◌, refl, List, [], ◌∷◌, Result, ok, ◌>>=◌}
use javex.Cache.{Image, Cache, Panic, get, insert}
use javex.Cache.Invariant.{IsValid, get-IsValid}
use javex.Cache.Insert.{insert-IsValid}

pub data Call (K M : Type 0) : Type 0 where
  gets : K → Call K M
  inserts : K → M → Call K M

module _ {K M : Type 0} (dec : Discrete K) (image_range : M → Image) where
  unfoldable pub step : Cache K M → Call K M → Result Panic (Cache K M)
  step c (gets k) = do (c', _) ← get dec c k; ok c'
  step c (inserts k m) = insert dec image_range c k m

  unfoldable pub run : Cache K M → List (Call K M) → Result Panic (Cache K M)
  run c [] = ok c
  run c (call ∷ calls) = do c' ← step c call; run c' calls

  pub step-IsValid :
      (c : Cache K M) (call : Call K M)
      → IsValid dec c
      → (c' : Cache K M) × (step c call ≡ ok c') × IsValid dec c'
  unfolding step
  step-IsValid c (gets k) v = let (c', done, v') = get-IsValid dec c k v in (c', rw done refl, v')
  step-IsValid c (inserts k m) v = insert-IsValid dec image_range c k m v

  -- Any calls on a valid cache return, with no panic, and leave a valid cache.
  pub run-IsValid :
      (c : Cache K M) (calls : List (Call K M))
      → IsValid dec c
      → (c' : Cache K M) × (run c calls ≡ ok c') × IsValid dec c'
  unfolding run
  run-IsValid c [] v = (c, refl, v)
  run-IsValid c (call ∷ calls) v =
      let (c', done, v') = step-IsValid c call v in rw done (run-IsValid c' calls v')
