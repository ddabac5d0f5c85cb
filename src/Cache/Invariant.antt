-- ===== src/Cache/Invariant.antt =====
-- The invariant of `Cache` (native/javex_nif/src/sandbox.rs), and that `get` keeps it.
use mathlib.Core.Option
use javex.Base.{
  ◌≤◌, ◌<◌, ◌≡◌, refl, sym, ◌∙◌, none, [], ◌∷◌, ◌++◌, arith, length, length-append, ok, usize_mod,
  Option-cases, inl, inr,
}
use javex.Cache.{Cache, CacheOptions, get, empty}
use javex.Cache.Find.{total, total-append, find, without, Distinct, after_get, get-find}
use javex.Cache.Find.Keys.{
  find-key, find-without_self, length-without, total-without, Distinct-without, Distinct-snoc,
}

module _ {K M : Type 0} (dec : Discrete K) where
  -- The byte count is exact, both budgets are kept, and no key stands twice.
  pub record IsValid (c : Cache K M) : Type 0 where
    pub word : c.limits.max_cache_bytes < usize_mod
    pub counted : c.bytes ≡ total c.entries
    pub within : total c.entries ≤ c.limits.max_cache_bytes
    pub bounded : length c.entries ≤ c.limits.max_cached_modules
    pub distinct : Distinct dec c.entries

  pub empty-IsValid :
      (limits : CacheOptions) → limits.max_cache_bytes < usize_mod → IsValid (empty limits)
  unfolding empty
  empty-IsValid limits w = record {
    word = w;
    counted = refl;
    within = omega arith;
    bounded = omega arith;
    distinct = tt;
  }

  module _ (c : Cache K M) (k : K) (v : IsValid c) where
    pub after_get-IsValid : IsValid (after_get dec c k (find dec k c.entries))
    unfolding after_get
    after_get-IsValid = elim (Option-cases (find dec k c.entries)) [
      | inl miss ↦ rw (miss, after_get) v
      | inr (e, hit) ↦
          let es = c.entries in
          let bytes : total (without dec k es ++ e ∷ []) ≡ total es =
            omega (arith, total-append (without dec k es) (e ∷ []), total-without dec k es e hit) in
          let count : length (without dec k es ++ e ∷ []) ≡ length es =
            omega
              (arith, length-append (without dec k es) (e ∷ []), length-without dec k es e hit) in
          let gone : find dec e.key (without dec k es) ≡ none =
            rw (find-key dec k es e hit) (find-without_self dec k es v.distinct) in
          rw (hit, after_get)
            (record {
              word = v.word;
              counted = v.counted ∙ sym bytes;
              within = omega (arith, v.within);
              bounded = omega (arith, v.bounded);
              distinct =
                  Distinct-snoc dec (without dec k es) e (Distinct-without dec k es v.distinct)
                    gone;
            })
    ]

    -- `get` returns and keeps a valid cache.
    pub get-IsValid :
        (c' : Cache K M) × (get dec c k
          ≡ ok (c', Option.map (λ e. e.compiled) (find dec k c.entries)))
        × IsValid c'
    get-IsValid = (after_get dec c k (find dec k c.entries), get-find dec c k, after_get-IsValid)
