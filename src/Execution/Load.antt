-- ===== src/Execution/Load.antt =====
-- How `Execution::start` of native/javex_nif/src/sandbox.rs comes by the module of a call: from the
-- cache, or compiled and then cached. SHA-256 and wasmtime's compiler are parameters. While the compiler
-- runs, time passes, and other calls may use the cache.
pub mod Laws
use javex.Base.{ℕ, Option, none, some, List, Anyhow, Result, ok, err, ◌>>=◌}
use javex.Cache.{Image, Panic, get, insert}
use javex.Sandbox.{World}
use javex.Execution.{Act}

pub record Loader (G L K M : Type 0) : Type 0 where
  pub dec : Discrete K
  pub digest : List ℕ → K
  pub image_range : M → Image
  pub from_binary : List ℕ → Act (World G L K M) M

module _ {G L K M : Type 0} (loader : Loader G L K M) where
  open loader use {dec, digest, image_range, from_binary}

  -- What was compiled is cached; an error is not.
  unfoldable pub cache_module :
      K → World G L K M × Result Anyhow M → Result Panic (World G L K M × Result Anyhow M)
  cache_module key (w, err e) = ok (w, err e)
  cache_module key (w, ok m) = do
    cache ← insert dec image_range w.cache key m
    ok (record w { cache = cache }, ok m)

  unfoldable pub load_module :
      List ℕ → World G L K M → Result Panic (World G L K M × Result Anyhow M)
  unfolding cache_module
  load_module wasm w = do
    (cache, cached) ← get dec w.cache (digest wasm)
    elim cached [
      | some m ↦ ok (record w { cache = cache }, ok m)
      | none ↦ cache_module (digest wasm) (from_binary wasm (record w { cache = cache }))
    ]
