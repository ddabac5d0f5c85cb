-- ===== src/Execution/Load/Laws.antt =====
-- Loading a module never panics, and leaves a valid cache (`Execution::start` of
-- native/javex_nif/src/sandbox.rs).
use mathlib.Core.Option
use javex.Cache.Find.{find}
use javex.Base.{inl, inr, Option-cases, List, ℕ, Anyhow, Result, ok, err}
use javex.Cache.{Panic}
use javex.Cache.Invariant.{IsValid, get-IsValid}
use javex.Cache.Insert.{insert-IsValid}
use javex.Sandbox.{World}
use javex.Execution.{Act, proceed}
use javex.Execution.Load.{Loader, cache_module, load_module}

-- Whatever an act does, it leaves a world as it should be.
abbrev pub Keeps : {W A : Type 0} → (W → Type 0) → Act W A → Type 0
Keeps {W = W} P act = (w : W) → P w → P (act w).0

pub proceed-Keeps :
    {W A B : Type 0} (P : W → Type 0) (r : W × Result Anyhow A) (next : A → Act W B)
    → P r.0
    → ((a : A) → Keeps P (next a))
    → P (proceed r next).0
proceed-Keeps P (w, ok a) next valid kept = kept a w valid
proceed-Keeps P (w, err e) next valid kept = valid

-- A call of the host returns, with no panic, and leaves a world as it should be.
abbrev pub Returns : {W A : Type 0} → (W → Type 0) → Result Panic (W × A) → Type 0
Returns P (err panic) = ⊥
Returns P (ok (w, a)) = P w

module _ {G L K M : Type 0} (loader : Loader G L K M) where
  open loader use {dec, digest, image_range, from_binary}

  abbrev pub HasCache : World G L K M → Type 0
  HasCache w = IsValid dec w.cache

  cache_module-Returns :
      (key : K) (compiled : World G L K M × Result Anyhow M)
      → HasCache compiled.0
      → Returns HasCache (cache_module loader key compiled)
  unfolding cache_module
  cache_module-Returns key (w, err e) valid = valid
  cache_module-Returns key (w, ok m) valid =
      let (cache, stored, valid') = insert-IsValid dec image_range w.cache key m valid in
      rw (cache_module, stored) valid'

  -- A module is loaded, or an error returned, with no panic, and the cache is valid again, if the
  -- compiler leaves the cache valid.
  pub load_module-Returns :
      (wasm : List ℕ) (w : World G L K M)
      → ((bytes : List ℕ) → Keeps HasCache (from_binary bytes))
      → HasCache w
      → Returns HasCache (load_module loader wasm w)
  unfolding load_module
  load_module-Returns wasm w harmless valid =
      let (cache, found, valid') = get-IsValid dec w.cache (digest wasm) valid in
      elim (Option-cases (Option.map (λ e. e.compiled) (find dec (digest wasm) w.cache.entries))) [
        | inr (m, hit) ↦ rw (load_module, found, hit) valid'
        | inl miss ↦
            rw (load_module, found, miss)
              (cache_module-Returns (digest wasm) (from_binary wasm (record w { cache = cache }))
                (harmless wasm (record w { cache = cache }) valid'))
      ]
