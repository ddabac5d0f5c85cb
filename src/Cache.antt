-- ===== src/Cache.antt =====
-- `Cache` of native/javex_nif/src/sandbox.rs: the compiled modules of a runtime, least recently used
-- first, within a budget of bytes and of entries. Keys are SHA-256 digests; the modules and their
-- image ranges are wasmtime's. An `unwrap` of nothing is a panic, and `usize` arithmetic wraps as in
-- a release build.
pub mod Find
pub mod Evict
pub mod Invariant
pub mod Insert
pub mod History
pub mod Recent
pub mod Origin
mod Tests
use mathlib.Core.Logic.{ite}
use mathlib.Core.Option
use javex.Base.{
  ℕ, zero, suc, ◌+◌, Bool, true, false, ◌||◌, Option, none, some, List, [], ◌∷◌, ◌++◌, length, ltb,
  leb, ◌==◌, if◌then◌else◌, Result, ok, err, ◌>>=◌, wrapping_add, wrapping_sub, usize_mod,
}

-- `Module::image_range`
pub record Image : Type 0 where
  pub start : ℕ
  pub stop : ℕ

-- `([u8; 32], Module, usize)`
pub record Entry (K M : Type 0) : Type 0 where
  pub key : K
  pub compiled : M
  pub size : ℕ

pub record CacheOptions : Type 0 where
  pub max_cache_bytes : ℕ
  pub max_cached_modules : ℕ

-- The front of the queue is the head of the list.
pub record Cache (K M : Type 0) : Type 0 where
  pub entries : List (Entry K M)
  pub bytes : ℕ
  pub hits : ℕ
  pub limits : CacheOptions

pub record CacheStats : Type 0 where
  pub cached_modules : ℕ
  pub cache_bytes : ℕ
  pub cache_hits : ℕ

pub data Panic : Type 0 where
  unwrap_none : Panic

abbrev pub unwrap {ℓ} : {A : Type ℓ} → Option A → Result Panic A
unwrap none = err unwrap_none
unwrap (some a) = ok a

-- `image.end as usize - image.start as usize`
abbrev pub image_size : {M : Type 0} → (M → Image) → M → ℕ
image_size image_range compiled =
    let image = image_range compiled in wrapping_sub image.stop image.start

module _ {K M : Type 0} where
  -- `VecDeque::remove`
  unfoldable pub remove : List (Entry K M) → ℕ → Option (Entry K M × List (Entry K M))
  remove [] i = none
  remove (e ∷ es) zero = some (e, es)
  remove (e ∷ es) (suc i) = Option.map (λ r. (r.0, e ∷ r.1)) (remove es i)

  -- The test of the `while` loop of `insert`.
  unfoldable pub is_full : CacheOptions → ℕ → List (Entry K M) → ℕ → Bool
  is_full limits size entries bytes =
      leb limits.max_cached_modules (length entries)
      || ltb (wrapping_sub limits.max_cache_bytes bytes) size

  -- The `while` loop of `insert`: what is left of the queue and of its byte count.
  unfoldable pub evict :
      CacheOptions → ℕ → List (Entry K M) → ℕ → Result Panic (List (Entry K M) × ℕ)
  unfolding is_full
  evict limits size [] bytes =
      if is_full limits size [] bytes then err unwrap_none else ok ([], bytes)
  evict limits size (e ∷ es) bytes =
      if is_full limits size (e ∷ es) bytes
      then evict limits size es (wrapping_sub bytes e.size)
      else ok (e ∷ es, bytes)

module _ {K M : Type 0} (dec : Discrete K) where
  -- `entries.iter().position(|entry| &entry.0 == key)`
  unfoldable pub position : K → List (Entry K M) → Option ℕ
  position key [] = none
  position key (e ∷ es) = ite (dec e.key key) (some 0) (Option.map suc (position key es))

  unfoldable pub get : Cache K M → K → Result Panic (Cache K M × Option M)
  get c key = elim (position key c.entries) [
    | none ↦ ok (c, none)
    | some index ↦ do
      (entry, rest) ← unwrap (remove c.entries index)
      ok (
        record c { entries = rest ++ entry ∷ []; hits = wrapping_add c.hits 1 },
        some entry.compiled,
      )
  ]

  -- `entries.iter().any(|entry| entry.0 == key)`
  unfoldable pub contains : K → List (Entry K M) → Bool
  contains key [] = false
  contains key (e ∷ es) = ite (dec e.key key) true (contains key es)

  unfoldable pub insert : (M → Image) → Cache K M → K → M → Result Panic (Cache K M)
  insert image_range c key compiled =
      let size = image_size image_range compiled in
      if ltb c.limits.max_cache_bytes size || (c.limits.max_cached_modules == 0)
      then ok c
      else if contains key c.entries
      then ok c
      else do
        (kept, bytes) ← evict c.limits size c.entries c.bytes
        ok (record c {
          entries = kept ++ record { key = key; compiled = compiled; size = size } ∷ [];
          bytes = wrapping_add bytes size;
        })

-- `Runtime::stats`
unfoldable pub stats : {K M : Type 0} → Cache K M → CacheStats
stats c = record { cached_modules = length c.entries; cache_bytes = c.bytes; cache_hits = c.hits }

-- The cache that `build_runtime` makes.
unfoldable pub empty : {K M : Type 0} → CacheOptions → Cache K M
empty limits = record { entries = []; bytes = 0; hits = 0; limits = limits }
