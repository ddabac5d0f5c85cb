-- ===== src/Cache/Evict.antt =====
-- The eviction loop of `Cache::insert` (native/javex_nif/src/sandbox.rs): it ends, never pops from an
-- empty queue, and gives up no more than it must.
use javex.Base.{
  ℕ, zero, suc, ◌+◌, ◌≤◌, ◌<◌, ◌≡◌, ◌≢◌, refl, ap, ◌∙◌, List, [], ◌∷◌, arith, length, drop, Result,
  ok, usize_mod, wrapping_sub, wrapping_sub-eq, Bool-cases, inl, inr, true, false,
}
use javex.Cache.{Entry, CacheOptions, Panic, is_full, evict}
use javex.Cache.Find.{total}

module _ {K M : Type 0} where
  -- There is room for one more entry of the given size beside these.
  pub record Fits (limits : CacheOptions) (size : ℕ) (es : List (Entry K M)) : Type 0 where
    pub count : length es < limits.max_cached_modules
    pub room : total es + size ≤ limits.max_cache_bytes

  module _ (limits : CacheOptions) (size : ℕ) (word : limits.max_cache_bytes < usize_mod) where
    is_full-false :
        (es : List (Entry K M))
        → total es ≤ limits.max_cache_bytes
        → is_full limits size es (total es) ≡ false
        → Fits limits size es
    unfolding is_full
    is_full-false es h e =
        let free = wrapping_sub-eq limits.max_cache_bytes (total es) word h in
        record { count = ground arith; room = ground (arith, free) }

    is_full-true :
        (es : List (Entry K M))
        → total es ≤ limits.max_cache_bytes
        → is_full limits size es (total es) ≡ true
        → ¬ Fits limits size es
    unfolding is_full
    is_full-true es h e fits =
        ground (arith, wrapping_sub-eq limits.max_cache_bytes (total es) word h)

    total-rest :
        (e : Entry K M) (es : List (Entry K M))
        → total (e ∷ es) ≤ limits.max_cache_bytes
        → wrapping_sub (total (e ∷ es)) e.size ≡ total es
    total-rest e es h =
        wrapping_sub-eq (total (e ∷ es)) e.size (omega arith) (omega arith) ∙ omega arith

    -- The loop keeps what stands behind the first `n` entries.
    pub record Evicts (es kept : List (Entry K M)) (n : ℕ) : Type 0 where
      pub dropped : kept ≡ drop n es
      pub result : evict limits size es (total es) ≡ ok (kept, total kept)
      pub fits : Fits limits size kept

    module _ (cacheable : size ≤ limits.max_cache_bytes)
        (some_modules : limits.max_cached_modules ≢ 0) where
      pub evict-Evicts :
          (es : List (Entry K M))
          → total es ≤ limits.max_cache_bytes
          → (kept : List (Entry K M)) × (n : ℕ) × Evicts es kept n
      unfolding evict
      evict-Evicts [] h = elim (Bool-cases (is_full {K = K} {M = M} limits size [] 0)) [
        | inl full ↦
            absurd (is_full-true [] h full (record { count = omega arith; room = omega arith }))
        | inr free ↦
            ([], 0, record { dropped = refl; result = rw free; fits = is_full-false [] h free })
      ]
      evict-Evicts (e ∷ es) h = elim (Bool-cases (is_full limits size (e ∷ es) (total (e ∷ es)))) [
        | inl full ↦
            let (kept, n, v) = evict-Evicts es (omega arith) in
            (
              kept,
              suc n,
              record {
                dropped = v.dropped;
                result = rw (full, total-rest e es h) v.result;
                fits = v.fits;
              },
            )
        | inr free ↦ (
          e ∷ es,
          0,
          record { dropped = refl; result = rw free; fits = is_full-false (e ∷ es) h free },
        )
      ]

    -- A longer rest of the queue would have left no room.
    pub evict-least :
        (es kept : List (Entry K M)) (bytes m : ℕ)
        → total es ≤ limits.max_cache_bytes
        → evict limits size es (total es) ≡ ok (kept, bytes)
        → m + length kept < length es
        → ¬ Fits limits size (drop m es)
    unfolding evict
    evict-least [] kept bytes m h e lt = absurd (omega arith)
    evict-least (x ∷ es) kept bytes m h e lt =
        elim (Bool-cases (is_full limits size (x ∷ es) (total (x ∷ es)))) [
          | inl full ↦
              later m
                (λ k. evict-least es kept bytes k (omega arith) (rw (full, total-rest x es h) at e))
                full lt
          | inr free ↦
              let stays : length (x ∷ es) ≡ length kept = ap length (ok-kept (rw free at e)) in
              absurd (omega arith)
        ]
      where
        ok-kept :
            {a b : List (Entry K M)} {c d : ℕ}
            → ◌≡◌ {A = Result Panic (List (Entry K M) × ℕ)} (ok (a, c)) (ok (b, d))
            → a ≡ b
        ok-kept p = cc

        later :
            (m : ℕ)
            → ((k : ℕ) → k + length kept < length es → ¬ Fits limits size (drop k es))
            → is_full limits size (x ∷ es) (total (x ∷ es)) ≡ true
            → m + length kept < length (x ∷ es)
            → ¬ Fits limits size (drop m (x ∷ es))
        later zero ih full lt = is_full-true (x ∷ es) h full
        later (suc m) ih full lt = ih m (omega arith)
