-- ===== src/Cache/Insert.antt =====
-- `Cache::insert` of native/javex_nif/src/sandbox.rs on each of its branches.
use javex.Base.{
  ℕ, ◌+◌, ◌≤◌, ◌≡◌, ◌≢◌, refl, sym, ap, ◌∙◌, none, some, List, [], ◌∷◌, ◌++◌, arith, length, drop,
  length-append, take-append-drop, take, subst, ok, Option-cases, inl, inr, ltb, ◌==◌, Bool-cases,
  ◌⊎◌, wrapping_add, wrapping_add-eq, ok-injective, ◌||◌, true, false,
}
use javex.Cache.{Image, Entry, Cache, get, insert, image_size, evict}
use javex.Cache.Find.{total, total-append, find, after_get, get-find}
use javex.Cache.Find.Keys.{
  contains_miss, contains_hit, find-append_none, find-append_right, find-single,
  Distinct-append_right, Distinct-snoc,
}
use javex.Cache.Evict.{Fits, Evicts, evict-Evicts, evict-least}
use javex.Cache.Invariant.{IsValid}

module _ {K M : Type 0} (dec : Discrete K) (image_range : M → Image) where
  -- The entry that `insert` makes.
  abbrev pub fresh : K → M → Entry K M
  fresh k m = record { key = k; compiled = m; size = image_size image_range m }

  -- The module fits an empty cache.
  pub record IsCacheable (c : Cache K M) (m : M) : Type 0 where
    pub small : image_size image_range m ≤ c.limits.max_cache_bytes
    pub some_modules : c.limits.max_cached_modules ≢ 0

  module _ (c : Cache K M) (k : K) (m : M) where
    pub IsCacheable-cases :
        IsCacheable c m
        ⊎ ((ltb c.limits.max_cache_bytes (image_size image_range m)
              || (c.limits.max_cached_modules == 0))
            ≡ true)
    IsCacheable-cases =
        elim (Bool-cases (
          ltb c.limits.max_cache_bytes (image_size image_range m)
          || (c.limits.max_cached_modules == 0))) [
            | inl no_room ↦ inr no_room
            | inr room ↦ inl (record { small = ground arith; some_modules = ground arith })
          ]

    -- A module that no empty cache could hold changes nothing.
    pub insert_uncacheable : ¬ IsCacheable c m → insert dec image_range c k m ≡ ok c
    unfolding insert
    insert_uncacheable never = elim IsCacheable-cases [
      | inl fits ↦ absurd (never fits)
      | inr no_room ↦ rw no_room
    ]

    pub roomy :
        IsCacheable c m
        → (ltb c.limits.max_cache_bytes (image_size image_range m)
            || (c.limits.max_cached_modules == 0))
          ≡ false
    roomy fits = ground (arith, fits.small, fits.some_modules)

    -- A module that is already cached stays where it is.
    pub insert_known :
        {e : Entry K M} → find dec k c.entries ≡ some e → insert dec image_range c k m ≡ ok c
    unfolding insert
    insert_known hit = ground (arith, contains_hit dec k c.entries hit)

    module _ (v : IsValid dec c) (fits : IsCacheable c m)
        (absent : find dec k c.entries ≡ none) where
      abbrev inserted : List (Entry K M) → Cache K M
      inserted kept = record c {
        entries = kept ++ fresh k m ∷ [];
        bytes = total kept + image_size image_range m;
      }

      insert-Evicts :
          (kept : List (Entry K M)) × (n : ℕ) × (insert dec image_range c k m ≡ ok (inserted kept))
          × Evicts c.limits (image_size image_range m) v.word c.entries kept n
      unfolding insert
      insert-Evicts =
          let size = image_size image_range m in
          let (kept, n, e) =
            evict-Evicts c.limits size v.word fits.small fits.some_modules c.entries v.within in
          let run : evict c.limits size c.entries c.bytes ≡ ok (kept, total kept) =
            rw (← v.counted) at e.result in
          let sum : wrapping_add (total kept) size ≡ total kept + size =
            wrapping_add-eq (total kept) size (omega (arith, v.word, e.fits.room)) in
          (kept, n, rw (roomy fits, contains_miss dec k c.entries absent, run, sum) refl, e)

      -- In a valid cache, a module that can be cached and whose key is absent goes to the back of
      -- the queue, behind what is left when the first entries are dropped; the limits and the hits
      -- stay.
      pub insert_new :
          (c' : Cache K M)
          → insert dec image_range c k m ≡ ok c'
          → (n : ℕ) × (c'.entries ≡ drop n c.entries ++ fresh k m ∷ [])
            × Fits c.limits (image_size image_range m) (drop n c.entries)
            × (c'.limits ≡ c.limits)
            × (c'.hits ≡ c.hits)
      insert_new c' done =
          let (kept, n, now, e) = insert-Evicts in
          let same : c' ≡ inserted kept = ok-injective (sym done ∙ now) in
          (
            n,
            ap (λ (x : Cache K M). x.entries) same ∙ ap (λ es. es ++ fresh k m ∷ []) e.dropped,
            subst (Fits c.limits (image_size image_range m)) e.dropped e.fits,
            ap (λ (x : Cache K M). x.limits) same,
            ap (λ (x : Cache K M). x.hits) same,
          )

      -- In a valid cache, for a module that can be cached and whose key is absent, no entry is
      -- dropped without need: any longer rest of the queue leaves no room for the module.
      pub insert_least :
          (c' : Cache K M) (n : ℕ)
          → insert dec image_range c k m ≡ ok c'
          → n + length c'.entries ≤ length c.entries
          → ¬ Fits c.limits (image_size image_range m) (drop n c.entries)
      insert_least c' n done longer =
          let (kept, n', now, e) = insert-Evicts in
          let same : length c'.entries ≡ length (kept ++ fresh k m ∷ []) =
            ap (λ (x : Cache K M). length x.entries) (ok-injective (sym done ∙ now)) in
          evict-least c.limits (image_size image_range m) v.word c.entries kept (total kept) n
            v.within e.result (omega (arith, length-append kept (fresh k m ∷ [])))

    module _ (v : IsValid dec c) where
      new-IsValid :
          (fits : IsCacheable c m) (absent : find dec k c.entries ≡ none) (kept : List (Entry K M))
          (n : ℕ)
          → Evicts c.limits (image_size image_range m) v.word c.entries kept n
          → IsValid dec (inserted v fits absent kept)
      new-IsValid fits absent kept n e = record {
        word = v.word;
        counted = sum;
        within = omega (arith, sum, e.fits.room);
        bounded = omega (arith, length-append kept (fresh k m ∷ []), e.fits.count);
        distinct =
            Distinct-snoc dec kept (fresh k m)
              (Distinct-append_right dec (take n c.entries) kept (rw split v.distinct))
              (find-append_right dec k (take n c.entries) kept (rw split absent));
      }
        where
          split : take n c.entries ++ kept ≡ c.entries
          split = rw e.dropped (take-append-drop n c.entries)

          sum : total kept + image_size image_range m ≡ total (kept ++ fresh k m ∷ [])
          sum = omega (arith, total-append kept (fresh k m ∷ []))

      -- `insert` into a valid cache returns, whatever the module: the loop ends before the queue is
      -- empty, and the cache stays valid.
      pub insert-IsValid :
          (c' : Cache K M) × (insert dec image_range c k m ≡ ok c') × IsValid dec c'
      insert-IsValid = elim IsCacheable-cases [
        | inr no_room ↦ (c, insert_uncacheable (λ f. ground (arith, roomy f)), v)
        | inl fits ↦ elim (Option-cases (find dec k c.entries)) [
          | inr (e, hit) ↦ (c, insert_known {e = e} hit, v)
          | inl absent ↦
              let (kept, n, now, e) = insert-Evicts v fits absent in
              (inserted v fits absent kept, now, new-IsValid fits absent kept n e)
        ]
      ]

      -- A cacheable module is found right after it is inserted.
      pub get-insert :
          IsCacheable c m
          → find dec k c.entries ≡ none
          → (c' : Cache K M) → insert dec image_range c k m ≡ ok c'
          → (c'' : Cache K M) × (get dec c' k ≡ ok (c'', some m))
      get-insert fits absent c' done =
          let (kept, n, now, e) = insert-Evicts v fits absent in
          let missing : find dec k kept ≡ none =
            find-append_right dec k (take n c.entries) kept
              (rw (e.dropped, take-append-drop) absent) in
          let hit : find dec k c'.entries ≡ some (fresh k m) =
            ap (λ (x : Cache K M). find dec k x.entries) (ok-injective (sym done ∙ now))
            ∙ find-append_none dec k kept (fresh k m ∷ []) missing
            ∙ find-single dec k (fresh k m) refl in
          (after_get dec c' k (some (fresh k m)), rw hit at (get-find dec c' k))
